-- ===== src/Client/Dialog.antt =====
-- A whole run of the client against one session of a server.
use hft_legacy_migration_fra.Base.{Bytes, List, [], ◌∷◌, Result, ok}
use hft_legacy_migration_fra.Json.{Codec, Json}
use hft_legacy_migration_fra.Server.Handlers.{Outcome, Backend, postgres}
use hft_legacy_migration_fra.Server.Session.{Phase, reading_header}
use hft_legacy_migration_fra.Client.Delivery.{serve}
use hft_legacy_migration_fra.Client.Program.{Shown, Console}
use hft_legacy_migration_fra.Client.Asked.{Asked, Answers, line_of, shown_for}

-- What the database gives while the queries of a user are handled, one after the other.
abbrev pub backends : List ((Bytes → Outcome) × Asked) → List Backend
backends [] = []
backends ((database, q) ∷ qs) = postgres (ok tt) database ∷ backends qs

abbrev pub lines_of : List ((Bytes → Outcome) × Asked) → List Bytes
lines_of [] = []
lines_of ((database, q) ∷ qs) = line_of q ∷ lines_of qs

abbrev pub shown_of : List ((Bytes → Outcome) × Asked) → List Shown
shown_of [] = []
shown_of ((database, q) ∷ qs) = shown_for q ∷ shown_of qs

abbrev pub AllAnswer : Codec → List ((Bytes → Outcome) × Asked) → Type 0
AllAnswer c [] = Unit {0}
AllAnswer c ((database, q) ∷ qs) = Answers c database q × AllAnswer c qs

module _ (c : Codec) (pretty : Json → Result Bytes) where
  abbrev served : (Bytes → Outcome) → Bytes → Bytes
  served database = serve c (postgres (ok tt) database)

  -- Nothing is unread, and the session waits for a request.
  abbrev fresh : List Backend → List Shown → Console (Phase × List Backend)
  fresh bs shown = record { remote = (reading_header, bs); unread = []; shown = shown }
