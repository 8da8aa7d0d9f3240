-- ===== src/Sybase/Settings.antt =====
-- A connection string gives the settings that it was written from.
use hft_legacy_migration_fra.Base.{
  ℕ, ◌≡◌, ◌≢◌, refl, ap, ◌∙◌, Bytes, List, [], ◌∷◌, ◌++◌, some, All, arith, codes, eqb, eqb_iff,
  if◌then◌else◌, true, false, inl, inr, Bool-cases,
}
use hft_legacy_migration_fra.Sybase.ConnInfo.{
  Settings, tokens_of, split_token, store, take_token, take_tokens, parse_conn_info,
}

abbrev pub Without : ℕ → Bytes → Type 0
Without c text = All (λ d. d ≢ c) text

-- `key=value`.
abbrev pub written : Bytes × Bytes → Bytes
written (key, value) = key ++ b'=' ∷ value

-- The pairs with a semicolon between each two.
unfoldable pub connection_string : List (Bytes × Bytes) → Bytes
connection_string [] = []
connection_string (pair ∷ []) = written pair
connection_string (pair ∷ next ∷ pairs) = written pair ++ b';' ∷ connection_string (next ∷ pairs)

-- Each pair sets its field, the later one of two for the same field.
unfoldable pub store_all : List (Bytes × Bytes) → Settings → Settings
store_all [] s = s
store_all ((key, value) ∷ pairs) s = store_all pairs (store key value s)

abbrev pub IsPlain : Bytes × Bytes → Type 0
IsPlain (key, value) = Without b'=' key × Without b';' key × Without b';' value

split-written :
    (key value : Bytes) → Without b'=' key → split_token (written (key, value)) ≡ some (key, value)
unfolding split_token
split-written [] value h = refl
split-written (c ∷ key) value (h, hs) = ground (arith, split-written key value hs)

take_token-written :
    (key value : Bytes) (s : Settings)
    → Without b'=' key
    → take_token (written (key, value)) s ≡ store key value s
unfolding take_token
take_token-written key value s h = rw (split-written key value h, take_token) refl

tokens-end :
    (c : ℕ) (token : Bytes) → Without b';' (c ∷ token) → tokens_of (c ∷ token) ≡ (c ∷ token) ∷ []
unfolding tokens_of
tokens-end c [] (h, hs) = ground arith
tokens-end c (d ∷ token) (h, hs) = ground (arith, tokens-end d token hs)

tokens-more :
    (token rest : Bytes)
    → Without b';' token
    → tokens_of (token ++ b';' ∷ rest) ≡ token ∷ tokens_of rest
unfolding tokens_of
tokens-more [] rest h = refl
tokens-more (c ∷ token) rest (h, hs) = ground (arith, tokens-more token rest hs)

written-Without :
    (key value : Bytes)
    → Without b';' key
    → Without b';' value
    → Without b';' (written (key, value))
written-Without [] value h k = (ground arith, k)
written-Without (c ∷ key) value (h, hs) k = (h, written-Without key value hs k)

take-last :
    (token : Bytes) (s : Settings)
    → Without b';' token
    → take_tokens (tokens_of token) s ≡ take_token token s
unfolding take_tokens take_token tokens_of split_token
take-last [] s h = refl
take-last (c ∷ token) s h = rw (tokens-end c token h) refl

parse_conn_info-store_all :
    (pairs : List (Bytes × Bytes)) (s : Settings)
    → All IsPlain pairs
    → parse_conn_info (connection_string pairs) s ≡ store_all pairs s
unfolding parse_conn_info connection_string store_all
parse_conn_info-store_all [] s h = unfold tokens_of take_tokens in refl
parse_conn_info-store_all ((key, value) ∷ []) s ((he, hk, hv), hs) =
    take-last (written (key, value)) s (written-Without key value hk hv)
    ∙ take_token-written key value s he
parse_conn_info-store_all ((key, value) ∷ next ∷ pairs) s ((he, hk, hv), hs) =
    ap (λ ts. take_tokens ts s)
      (tokens-more (written (key, value)) (connection_string (next ∷ pairs))
        (written-Without key value hk hv))
    ∙ (unfold take_tokens in
        ap (take_tokens (tokens_of (connection_string (next ∷ pairs))))
          (take_token-written key value s he))
    ∙ parse_conn_info-store_all (next ∷ pairs) (store key value s) hs

-- The value of the last pair with a key, and where there is none the value from before.
unfoldable pub last_value : Bytes → List (Bytes × Bytes) → Bytes → Bytes
last_value wanted [] before = before
last_value wanted ((key, value) ∷ pairs) before =
    last_value wanted pairs (if eqb key wanted then value else before)

unfoldable pub last_values : List (Bytes × Bytes) → Settings → Settings
unfolding last_value
last_values pairs s = record {
  server = last_value (codes "server") pairs s.server;
  user = last_value (codes "user") pairs s.user;
  password = last_value (codes "password") pairs s.password;
  database = last_value (codes "database") pairs s.database;
}

different : (key s t : Bytes) → eqb s t ≡ false → eqb key s ≡ true → eqb key t ≡ false
different key s t h e = ap (λ k. eqb k t) ((eqb_iff key s).0 e) ∙ h

store_lem :
    (key value : Bytes) (s : Settings)
    → store key value s ≡ record {
      server = if eqb key (codes "server") then value else s.server;
      user = if eqb key (codes "user") then value else s.user;
      password = if eqb key (codes "password") then value else s.password;
      database = if eqb key (codes "database") then value else s.database;
    }
unfolding store
store_lem key value s = elim (Bool-cases (eqb key (codes "server"))) [
  | inl y ↦
      rw
        (
          y,
          different key (codes "server") (codes "user") (unfold eqb in refl) y,
          different key (codes "server") (codes "password") (unfold eqb in refl) y,
          different key (codes "server") (codes "database") (unfold eqb in refl) y,
        )
        refl
  | inr n ↦ elim (Bool-cases (eqb key (codes "user"))) [
    | inl y ↦
        rw
          (
            n,
            y,
            different key (codes "user") (codes "password") (unfold eqb in refl) y,
            different key (codes "user") (codes "database") (unfold eqb in refl) y,
          )
          refl
    | inr m ↦ elim (Bool-cases (eqb key (codes "password"))) [
      | inl y ↦
          rw (n, m, y, different key (codes "password") (codes "database") (unfold eqb in refl) y)
            refl
      | inr l ↦ elim (Bool-cases (eqb key (codes "database"))) [
        | inl y ↦ rw (n, m, l, y) refl
        | inr k ↦ rw (n, m, l, k) refl
      ]
    ]
  ]
]

store_all_lem :
    (pairs : List (Bytes × Bytes)) (s : Settings) → store_all pairs s ≡ last_values pairs s
unfolding store_all last_values
store_all_lem [] s = refl
store_all_lem ((key, value) ∷ pairs) s =
    store_all_lem pairs (store key value s) ∙ ap (last_values pairs) (store_lem key value s)

-- A connection string that was written from pairs of keys and values sets each field to the value of
-- its last pair and leaves the fields that no pair names, whatever other keys there are. No key holds
-- an equals sign or a semicolon, and no value a semicolon.
pub parse_conn_info-connection_string :
    (pairs : List (Bytes × Bytes)) (s : Settings)
    → All IsPlain pairs
    → parse_conn_info (connection_string pairs) s ≡ last_values pairs s
parse_conn_info-connection_string pairs s h =
    parse_conn_info-store_all pairs s h ∙ store_all_lem pairs s
