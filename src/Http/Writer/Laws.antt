-- ===== src/Http/Writer/Laws.antt =====
-- What the recorders leave of a write: statusRecorders hide nothing from the server.
use cloud_ops_manager.Common.{none, some, false, ◌++◌}
use cloud_ops_manager.Common.{
  ℕ, String, ◌≡◌, refl, Bool, List, [], ◌∷◌, arith, lookup-insert, str_eq, if◌then◌else◌,
}
use cloud_ops_manager.Http.Writer.{Writer, set_header, write_header, write}
use cloud_ops_manager.Http.Writer.{
  Layer, status_recorder, response_recorder, Base, Chunk, base_write_header, base_write,
  write_header_layers, write_layers, header_get, header_set, Headers,
}

-- Only statusRecorders stand around the writer, as where the router calls a handler.
abbrev pub Plain : List Layer → Type 0
Plain [] = Unit
Plain (status_recorder s ∷ ls) = Plain ls
Plain (response_recorder s wrote b ∷ ls) = ⊥

pub base-write_header_layers :
    (status : ℕ) (ls : List Layer) (b : Base)
    → Plain ls
    → ((write_header_layers status ls b).base ≡ base_write_header status b)
      × Plain (write_header_layers status ls b).layers
unfolding write_header_layers
base-write_header_layers status [] b h = (refl, tt)
base-write_header_layers status (status_recorder s ∷ ls) b h =
    base-write_header_layers status ls b h
base-write_header_layers status (response_recorder s wrote body ∷ ls) b h = absurd h

pub base-write_layers :
    (c : Chunk) (opens : Bool) (ls : List Layer) (b : Base)
    → Plain ls
    → ((write_layers c opens ls b).base ≡ base_write c b) × Plain (write_layers c opens ls b).layers
unfolding write_layers
base-write_layers c opens [] b h = (refl, tt)
base-write_layers c opens (status_recorder s ∷ ls) b h = base-write_layers c opens ls b h
base-write_layers c opens (response_recorder s wrote body ∷ ls) b h = absurd h

pub header_get-header_set :
    (k j v : String) (hs : Headers)
    → header_get j (header_set k v hs) ≡ (if str_eq k j then v else header_get j hs)
unfolding header_get header_set
header_get-header_set k j v hs = ground (arith, lookup-insert k j (v ∷ []) hs)

-- A writer that nothing was sent through yet.
pub record IsFresh (w : Writer) : Type 0 where
  pub plain : Plain w.layers
  pub unsent : w.base.sent ≡ none
  pub blank : w.base.body ≡ []

-- What the client has received.
abbrev pub Received : ℕ → Headers → List Chunk → Writer → Type 0
Received status headers body w =
    Plain w.layers × (w.base.sent ≡ some (status, headers)) × (w.base.body ≡ body)

pub set_header-IsFresh : (k v : String) (w : Writer) → IsFresh w → IsFresh (set_header k v w)
unfolding set_header
set_header-IsFresh k v w f = record { plain = f.plain; unsent = f.unsent; blank = f.blank }

-- The status line carries the headers of the moment.
pub write_header-Received :
    (status : ℕ) (w : Writer)
    → IsFresh w
    → Received status w.base.headers [] (write_header status w)
unfolding write_header
write_header-Received status w f =
    let (same, plain) = base-write_header_layers status w.layers w.base f.plain in
    (plain, rw same (rw f.unsent), rw same f.blank)

-- A later write adds to the body alone.
pub write-Received :
    (c : Chunk) (status : ℕ) (hs : Headers) (body : List Chunk) (w : Writer)
    → Received status hs body w
    → Received status hs (body ++ c ∷ []) (write c w)
unfolding write
write-Received c status hs body w (plain, sent, old) =
    let (same, plain') = base-write_layers c false w.layers w.base plain in
    (plain', rw same (rw sent), rw same (rw old))
