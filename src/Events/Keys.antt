-- ===== src/Events/Keys.antt =====
-- internal/events/event_stream.go, isSensitivePayloadKey and what it calls: which payload keys name
-- a credential. A key is read as the list of its code points.
use ouvrier.Base.{
  ℕ, ◌+◌, String, ◌≡◌, refl, Bool, true, false, not, ◌&&◌, ◌||◌, Option, none, some, List, [], ◌∷◌,
  ◌++◌, if◌then◌else◌, leb, nat_eq, any, trim_space, codes,
}

abbrev is_lower : ℕ → Bool
is_lower c = leb b'a' c && leb c b'z'

abbrev is_upper : ℕ → Bool
is_upper c = leb b'A' c && leb c b'Z'

abbrev is_digit : ℕ → Bool
is_digit c = leb b'0' c && leb c b'9'

abbrev is_separator : ℕ → Bool
is_separator c = nat_eq c b'-' || (nat_eq c b'_' || (nat_eq c b'.' || nat_eq c b' '))

abbrev starts_lower : List ℕ → Bool
starts_lower [] = false
starts_lower (next ∷ rest) = is_lower next

-- The rune before (none at the start of the key), whether it was written as a separator, and
-- whether anything has been written.
record Scan : Type 0 where
  prev : Option ℕ
  separator : Bool
  started : Bool

abbrev start : Scan
start = record { prev = none; separator = false; started = false }

-- shouldInsertCamelSeparator
abbrev camel_separator : Scan → List ℕ → Bool
camel_separator scan rest = elim scan.prev [
  | none ↦ false
  | some prev ↦
      if scan.separator
      then false
      else if is_lower prev || is_digit prev
      then true
      else if is_upper prev
      then starts_lower rest
      else false
]

-- What one rune writes, and the scan after it.
abbrev emit : Scan → ℕ → List ℕ → List ℕ
emit scan r rest =
    if is_separator r
    then (if scan.started && not scan.separator then b'_' ∷ [] else [])
    else if is_upper r
    then (if camel_separator scan rest then b'_' ∷ (r + 32) ∷ [] else (r + 32) ∷ [])
    else r ∷ []

abbrev after : Scan → ℕ → Scan
after scan r =
    if is_separator r
    then record {
      prev = some r;
      separator = scan.separator || scan.started;
      started = scan.started;
    }
    else record { prev = some r; separator = false; started = true }

scan_key : Scan → List ℕ → List ℕ
scan_key scan [] = []
scan_key scan (r ∷ rest) = emit scan r rest ++ scan_key (after scan r) rest

drop_underscores : List ℕ → List ℕ
drop_underscores [] = []
drop_underscores (c ∷ cs) = let rest = drop_underscores cs in if nat_eq c b'_' then rest else c ∷ cs

abbrev cons_kept : ℕ → List ℕ → List ℕ
cons_kept c [] = if nat_eq c b'_' then [] else c ∷ []
cons_kept c (d ∷ ds) = c ∷ d ∷ ds

drop_last_underscores : List ℕ → List ℕ
drop_last_underscores [] = []
drop_last_underscores (c ∷ cs) = cons_kept c (drop_last_underscores cs)

-- normalizeSensitivePayloadKey
unfoldable pub normalize_key : String → List ℕ
unfolding scan_key drop_underscores drop_last_underscores
normalize_key key =
    drop_last_underscores (drop_underscores (scan_key start (codes (trim_space key))))

same_codes : List ℕ → List ℕ → Bool
same_codes [] [] = true
same_codes (c ∷ cs) (d ∷ ds) = nat_eq c d && same_codes cs ds
same_codes _ _ = false

begins_with : List ℕ → List ℕ → Bool
begins_with cs [] = true
begins_with [] (d ∷ ds) = false
begins_with (c ∷ cs) (d ∷ ds) = nat_eq c d && begins_with cs ds

ends_with : List ℕ → List ℕ → Bool
ends_with [] suffix = same_codes [] suffix
ends_with (c ∷ cs) suffix = same_codes (c ∷ cs) suffix || ends_with cs suffix

has_part : List ℕ → List ℕ → Bool
has_part [] part = begins_with [] part
has_part (c ∷ cs) part = begins_with (c ∷ cs) part || has_part cs part

abbrev sensitive_names : List String
sensitive_names =
    "authorization" ∷ "token" ∷ "api_key" ∷ "password" ∷ "passwd" ∷ "secret" ∷ "cookie"
    ∷ "private_key" ∷ "secret_key" ∷ "client_secret" ∷ "access_key" ∷ "auth_token" ∷ "bearer_token"
    ∷ "credential" ∷ "credentials" ∷ "database_url" ∷ "database_dsn" ∷ "connection_string" ∷ "dsn"
    ∷ []

abbrev sensitive_suffixes : List String
sensitive_suffixes =
    "_token" ∷ "_secret" ∷ "_password" ∷ "_key" ∷ "_cookie" ∷ "_credential" ∷ "_credentials"
    ∷ "_dsn" ∷ "_connection_string" ∷ []

-- isSensitivePayloadKey
unfoldable pub is_sensitive_key : String → Bool
unfolding normalize_key same_codes begins_with ends_with has_part
is_sensitive_key key =
    let normalized = normalize_key key in
    any (λ name. same_codes normalized (codes name)) sensitive_names
    || (any (λ suffix. ends_with normalized (codes suffix)) sensitive_suffixes
        || has_part normalized (codes "api_key"))

camel_case : is_sensitive_key " githubAccessToken" ≡ true
unfolding is_sensitive_key trim_space
camel_case = refl

plain_name : is_sensitive_key "monkey" ≡ false
unfolding is_sensitive_key trim_space
plain_name = refl
