-- ===== src/Cli/Usage.antt =====
-- cmd/omnivault/main.go: the text that printUsage prints, line by line.
use omnivault.Base.{Bytes, codes, List, [], ◌∷◌, ◌++◌}

-- The lines of the usage.
abbrev pub usage_lines : List Bytes
usage_lines =
    codes "omnivault - Secure local secret management"
    ∷ []
    ∷ codes "Usage:"
    ∷ codes "  omnivault <command> [arguments]"
    ∷ []
    ∷ codes "Vault Commands:"
    ∷ codes "  init              Initialize a new vault with a master password"
    ∷ codes "  unlock            Unlock the vault"
    ∷ codes "  lock              Lock the vault"
    ∷ codes "  status            Show vault and daemon status"
    ∷ codes "  passwd            Change the master password"
    ∷ []
    ∷ codes "Secret Commands:"
    ∷ codes "  get <path>        Get a secret value"
    ∷ codes "    --format        Output format: text, json, yaml, shell (default: text)"
    ∷ codes "    --field         Extract a specific field from the secret"
    ∷ codes "  set <path> [val]  Set a secret (prompts for value if not provided)"
    ∷ codes "  list [prefix]     List secrets"
    ∷ codes "    --format        Output format: text, json, yaml (default: text)"
    ∷ codes "    --metadata      Show detailed metadata (timestamps, full tags)"
    ∷ codes "  delete <path>     Delete a secret"
    ∷ codes "  search <pattern>  Search for secrets by path"
    ∷ codes "    --regex         Use regex pattern instead of glob"
    ∷ []
    ∷ codes "Import/Export Commands:"
    ∷ codes "  export [prefix]   Export secrets as JSON"
    ∷ codes "    --output        Output file (default: stdout)"
    ∷ codes "  import [file]     Import secrets from JSON (default: stdin)"
    ∷ codes "    --merge         Skip existing secrets instead of overwriting"
    ∷ []
    ∷ codes "Daemon Commands:"
    ∷ codes "  daemon start      Start the daemon in background"
    ∷ codes "  daemon stop       Stop the daemon"
    ∷ codes "  daemon status     Show daemon status"
    ∷ codes "  daemon run        Run daemon in foreground (for debugging)"
    ∷ []
    ∷ codes "Other Commands:"
    ∷ codes "  version           Show version"
    ∷ codes "  help              Show this help"
    ∷ []
    ∷ codes "Configuration:"
    ∷ codes "  Config file: ~/.omnivault/config.json"
    ∷ codes "  Supported settings:"
    ∷ codes "    auto_lock_timeout    Duration before auto-lock (e.g., \"15m\", \"1h\")"
    ∷ codes "    default_format       Default output format (text, json, yaml)"
    ∷ codes "    expiry_warning_days  Days before expiry to show warnings (default: 30)"
    ∷ []
    ∷ codes "Examples:"
    ∷ codes "  omnivault init"
    ∷ codes "  omnivault set database/password"
    ∷ codes "  omnivault get database/password"
    ∷ codes "  omnivault get database/password --format json"
    ∷ codes "  omnivault get database/password --field password"
    ∷ codes "  omnivault list database/ --metadata"
    ∷ codes "  omnivault search \"database/*\""
    ∷ codes "  omnivault search \".*prod.*\" --regex"
    ∷ codes "  omnivault export > backup.json"
    ∷ codes "  omnivault import backup.json --merge"
    ∷ codes "  omnivault passwd"
    ∷ []

unfoldable pub unlines : List Bytes → Bytes
unlines [] = []
unlines (line ∷ lines) = line ++ 10 ∷ unlines lines
