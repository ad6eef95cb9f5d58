-- ===== src/Providers/File/Laws.antt =====
-- providers/file/file.go: which files Get lets through.
use omnivault.Base.{
  Bytes, codes, Bool, true, false, not, ◌&&◌, ◌||◌, Option, none, some, ◌++◌, is_empty,
  if◌then◌else◌, ◌≡◌, refl, ◌∙◌, sym, ap, arith,
}
use omnivault.Vault.Types.{Secret}
use omnivault.Vault.Errors.{Error, Sentinel, sentinel}
use omnivault.Vault.Interface.{Result, >>=-eq-ok, ok, err, panic}
use omnivault.Providers.File.{
  not_found, Info, Opened, Files, Json, Provider, failure, within, filename, read_content, checked,
  insecure, read_opened, read_file, get_in_root, get, with_file_info, decoded, present, closing,
  close_failure,
}

-- Inversion of the chains that the provider is written with.
pub if-eq-ok {ℓ} :
    {A : Type ℓ} (b : Bool) (e : Error) (r : Result A) {a : A}
    → (if b then err e else r) ≡ ok a
    → (b ≡ false) × (r ≡ ok a)
if-eq-ok true e r h = cc
if-eq-ok false e r h = (refl, h)

never-ok {ℓ ℓ'} :
    {A : Type ℓ} {C : Type ℓ'} (b : Bool) (e e' : Error) {a : A}
    → ◌≡◌ {A = Result A} (if b then err e else err e') (ok a)
    → C
never-ok true e e' h = cc
never-ok false e e' h = cc

pub ok-injective {ℓ} : {A : Type ℓ} {a b : A} → ◌≡◌ {A = Result A} (ok a) (ok b) → b ≡ a
ok-injective h = cc

within-eq-ok {ℓ} :
    {A : Type ℓ} (op path : Bytes) (r : Result A) {a : A} → within op path r ≡ ok a → r ≡ ok a
within-eq-ok op path (ok b) h = h
within-eq-ok op path (err e) h = cc
within-eq-ok op path panic h = cc

closing-eq-ok {ℓ} :
    {A : Type ℓ} (o : Option Error) (r : Result A) {a : A} → closing o r ≡ ok a → r ≡ ok a
closing-eq-ok none r h = h
closing-eq-ok (some e) (ok b) h = cc
closing-eq-ok (some e) (err x) h = cc
closing-eq-ok (some e) panic h = cc

module _ {ℓ} {F : Type ℓ} (fs : Files F) (json : Json) where
  open fs use {open_root, open_file, is_local}

  pub filename-eq-ok :
      (p : Provider F) (op path name : Bytes)
      → filename fs json p op path ≡ ok name
      → (name ≡ path ++ p.config.extension)
        × (is_empty path ≡ false)
        × (is_local (path ++ p.config.extension) ≡ true)
  unfolding filename
  filename-eq-ok p op path name h =
      let (g, e) =
        if-eq-ok (is_empty path || not (is_local (path ++ p.config.extension)))
          (failure op path (sentinel Sentinel.invalid_path)) (ok (path ++ p.config.extension)) h in
      (cc, ground arith, ground arith)

  present-eq-ok : (r : Result Secret) (x : Secret) → present fs json r ≡ ok (some x) → r ≡ ok x
  present-eq-ok (ok s) x h = cc
  present-eq-ok (err e) x h = cc
  present-eq-ok panic x h = cc

  read_content-eq-ok :
      (p : Provider F) (path : Bytes) (f : Opened) (info : Info) (x : Secret)
      → read_content fs json p path f info ≡ ok x
      → (text : Bytes) × (f.content ≡ ok text)
        × (x ≡ with_file_info fs json path info (decoded fs json p text))
  read_content-eq-ok p path f info x h =
      let (text, c, e) =
        >>=-eq-ok (within (codes "Get") path f.content)
          (λ text. ok (with_file_info fs json path info (decoded fs json p text))) h in
      (text, within-eq-ok (codes "Get") path f.content c, ok-injective e)

  checked-eq-ok :
      (p : Provider F) (path : Bytes) (f : Opened) (info : Info) (x : Secret)
      → checked fs json p path f info ≡ ok x
      → ((p.config.allow_insecure_permissions || info.private) ≡ true)
        × (read_content fs json p path f info ≡ ok x)
  checked-eq-ok p path f info x h =
      let (g, e) =
        if-eq-ok (not p.config.allow_insecure_permissions && not info.private)
          (failure (codes "Get") path (insecure info.mode)) (read_content fs json p path f info)
          h in
      (ground arith, e)

  read_opened-eq-ok :
      (p : Provider F) (path : Bytes) (f : Opened) (x : Secret)
      → read_opened fs json p path f ≡ ok x
      → (info : Info) × (f.stat ≡ ok info)
        × (info.regular ≡ true)
        × (checked fs json p path f info ≡ ok x)
  read_opened-eq-ok p path f x h =
      let (info, s, e) =
        >>=-eq-ok (within (codes "Get") path f.stat)
          (λ info.
            if not info.regular
            then err (failure (codes "Get") path (sentinel Sentinel.invalid_path))
            else checked fs json p path f info)
          h in
      let (g, e') =
        if-eq-ok (not info.regular) (failure (codes "Get") path (sentinel Sentinel.invalid_path))
          (checked fs json p path f info) e in
      (info, within-eq-ok (codes "Get") path f.stat s, ground arith, e')

  read_file-eq-ok :
      (p : Provider F) (path : Bytes) (r : Result Opened) (x : Secret)
      → read_file fs json p path r ≡ ok x
      → (f : Opened) × (r ≡ ok f) × (read_opened fs json p path f ≡ ok x)
  read_file-eq-ok p path (ok f) x h =
      (f, refl, closing-eq-ok (close_failure path f.close_error) (read_opened fs json p path f) h)
  read_file-eq-ok p path (err e) x h =
      never-ok (fs.os_is_not_exist e) (not_found fs json path) (failure (codes "Get") path e) h
  read_file-eq-ok p path panic x h = cc

  get_in_root-eq-ok :
      (p : Provider F) (path name : Bytes) (r : Result (Unit {0})) (x : Secret)
      → get_in_root fs json p path name r ≡ ok (some x)
      → (f : Opened) × (open_file p.files name ≡ ok f) × (read_opened fs json p path f ≡ ok x)
  get_in_root-eq-ok p path name (ok u) x h = read_file-eq-ok p path (open_file p.files name) x (
      closing-eq-ok (fs.close_root p.files) (read_file fs json p path (open_file p.files name)) (
        present-eq-ok
          (closing (fs.close_root p.files) (read_file fs json p path (open_file p.files name))) x
          h))
  get_in_root-eq-ok p path name (err e) x h =
      never-ok (fs.errors_is_not_exist e) (not_found fs json path) (failure (codes "Get") path e) h
  get_in_root-eq-ok p path name panic x h = cc

  -- Get reads nothing but the regular file that the path names, and that only if it lies inside the
  -- directory and nobody but its owner may access it, or the configuration allows that.
  pub get-private :
      (p : Provider F) (path : Bytes) (x : Secret)
      → get fs json p path ≡ ok (some x)
      → (f : Opened) × (info : Info) × (text : Bytes) × (is_empty path ≡ false)
        × (is_local (path ++ p.config.extension) ≡ true)
        × (open_file p.files (path ++ p.config.extension) ≡ ok f)
        × (f.stat ≡ ok info)
        × (info.regular ≡ true)
        × ((p.config.allow_insecure_permissions || info.private) ≡ true)
        × (f.content ≡ ok text)
        × (x ≡ with_file_info fs json path info (decoded fs json p text))
  unfolding get
  get-private p path x h =
      let (name, n, g) =
        >>=-eq-ok (filename fs json p (codes "Get") path)
          (λ name. get_in_root fs json p path name (open_root p.files p.config.directory)) h in
      let (is_name, nonempty, inside) = filename-eq-ok p (codes "Get") path name n in
      let (f, o, r) = get_in_root-eq-ok p path name (open_root p.files p.config.directory) x g in
      let (info, s, regular, k) = read_opened-eq-ok p path f x r in
      let (private, c) = checked-eq-ok p path f info x k in
      let (text, content, is_x) = read_content-eq-ok p path f info x c in
      (
        f,
        info,
        text,
        nonempty,
        inside,
        ap (open_file p.files) (sym is_name) ∙ o,
        s,
        regular,
        private,
        content,
        is_x,
      )
