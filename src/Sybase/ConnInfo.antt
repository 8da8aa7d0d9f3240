-- ===== src/Sybase/ConnInfo.antt =====
-- `parseConnInfo` of src/sybase/SybConnection.cpp. The loop of `open` in src/db/SybaseConnection.cpp
-- is the same.
use hft_legacy_migration_fra.Base.{
  ℕ, Bytes, List, [], ◌∷◌, Option, none, some, codes, eqb, ◌==◌, if◌then◌else◌,
}

pub record Settings : Type 0 where
  pub server : Bytes
  pub user : Bytes
  pub password : Bytes
  pub database : Bytes

abbrev pub no_settings : Settings
no_settings = record { server = []; user = []; password = []; database = [] }

abbrev pub attach : ℕ → List Bytes → List Bytes
attach c [] = (c ∷ []) ∷ []
attach c (token ∷ tokens) = (c ∷ token) ∷ tokens

-- `std::getline(iss, token, ';')` until it fails.
unfoldable pub tokens_of : Bytes → List Bytes
tokens_of [] = []
tokens_of (c ∷ text) =
    let tokens = tokens_of text in if c == b';' then [] ∷ tokens else attach c tokens

abbrev pub behind : ℕ → Option (Bytes × Bytes) → Option (Bytes × Bytes)
behind c none = none
behind c (some (key, value)) = some (c ∷ key, value)

-- `token.find('=')` with the two `substr`.
unfoldable pub split_token : Bytes → Option (Bytes × Bytes)
split_token [] = none
split_token (c ∷ text) =
    let later = split_token text in if c == b'=' then some ([], text) else behind c later

unfoldable pub store : Bytes → Bytes → Settings → Settings
store key value s =
    if eqb key (codes "server")
    then record s { server = value }
    else if eqb key (codes "user")
    then record s { user = value }
    else if eqb key (codes "password")
    then record s { password = value }
    else if eqb key (codes "database")
    then record s { database = value }
    else s

unfoldable pub take_token : Bytes → Settings → Settings
unfolding split_token store
take_token token s = elim (split_token token) [ none ↦ s | some (key, value) ↦ store key value s ]

unfoldable pub take_tokens : List Bytes → Settings → Settings
unfolding take_token
take_tokens [] s = s
take_tokens (token ∷ tokens) s = take_tokens tokens (take_token token s)

unfoldable pub parse_conn_info : Bytes → Settings → Settings
unfolding take_tokens tokens_of
parse_conn_info text s = take_tokens (tokens_of text) s
