-- ===== src/Providers/File/Examples.antt =====
-- The theorems about the file provider on a disk that is a map from names to contents.
use omnivault.Base.{
  Bytes, codes, true, false, Map, lookup, insert, bytes_eq, is_empty, Option, none, some, [], ◌∷◌,
  ◌≡◌, refl, ◌||◌,
}
use omnivault.Vault.Types.{new_secret}
use omnivault.Vault.Errors.{message}
use omnivault.Vault.Interface.{Result, ok, err}
use omnivault.Providers.File.{Info, Opened, Files, Json, Provider, get, filename, with_file_info}
use omnivault.Providers.File.Laws.{get-private}

abbrev plain : Info
plain = record { regular = true; private = true; mode = codes "0600"; mod_time = 9 }

abbrev holding : Option Bytes → Result Opened
holding none = err (message (codes "no such file"))
holding (some text) = ok (record { stat = ok plain; content = ok text; close_error = none })

abbrev in_memory : Files (Map Bytes)
in_memory = record {
  make_directory = λ s d m. (ok tt, s);
  open_root = λ s d. ok tt;
  open_file = λ s name. holding (lookup name s);
  stat_file = λ s name. ok tt;
  mkdir_all = λ s name m. (ok tt, s);
  write_file = λ s name text m. (ok tt, insert name text s);
  remove_file = λ s name. (ok tt, s);
  close_root = λ s. none;
  walk = λ s d. [];
  is_local = λ name. true;
  parent = λ name. codes ".";
  errors_is_not_exist = λ e. true;
  os_is_not_exist = λ e. true;
}

abbrev no_json : Json
no_json = record {
  marshal_indent = λ s. err (message (codes "json"));
  unmarshal = λ text. err (message (codes "json"));
}

abbrev provider : Map Bytes → Provider (Map Bytes)
provider files = record {
  config = record {
    directory = codes "/s";
    extension = codes ".txt";
    json_format = false;
    file_mode = 384;
    dir_mode = 448;
    read_only = false;
    allow_insecure_permissions = false;
  };
  files = files;
}

abbrev one_file : Map Bytes
one_file = (codes "k.txt", codes "v") ∷ []

get-private_example :
    (f : Opened) × (info : Info) × (text : Bytes) × (is_empty (codes "k") ≡ false)
    × (in_memory.is_local (codes "k.txt") ≡ true)
    × (in_memory.open_file one_file (codes "k.txt") ≡ ok f)
    × (f.stat ≡ ok info)
    × (info.regular ≡ true)
    × ((false || info.private) ≡ true)
    × (f.content ≡ ok text)
    × (with_file_info in_memory no_json (codes "k") plain (new_secret (codes "v"))
        ≡ with_file_info in_memory no_json (codes "k") info (new_secret text))
unfolding get filename lookup bytes_eq
get-private_example =
    get-private in_memory no_json (provider one_file) (codes "k")
      (with_file_info in_memory no_json (codes "k") plain (new_secret (codes "v"))) refl
