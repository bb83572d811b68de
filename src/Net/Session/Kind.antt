-- ===== src/Net/Session/Kind.antt =====
-- The type of a session, which sending leaves as it is.
use mathlib.Core.Option.{some-injective}
use asio_utils.Base.{ℕ, ◌≡◌, sym, ap, ◌∙◌, List, ◌++◌, some, ◌>>=◌, arith, bind-some}
use asio_utils.Net.Buffer.{append}
use asio_utils.Net.Session.{Session, add_more, send, internal_send}
use asio_utils.Net.Session.Outgoing.{Outgoing, add_more-Outgoing, internal_send-Outgoing}

pub internal_send-type : (s : Session) → (internal_send s).type ≡ s.type
unfolding internal_send
internal_send-type s = ground arith

pub add_more-type : (s t : Session) (bytes : List ℕ) → add_more s bytes ≡ some t → t.type ≡ s.type
unfolding add_more
add_more-type s t bytes e =
    let (b, _, f) =
      bind-some (append s.output_buffer bytes) (λ x. some (record s { output_buffer = x })) e in
    ap (λ (u : Session). u.type) (some-injective _ _ (sym f))

-- A send returns, and the session takes the bytes behind those it has been given.
pub send-Outgoing :
    {s : Session} {acc : List ℕ} (bytes : List ℕ)
    → Outgoing s acc
    → (t : Session) × (send s bytes ≡ some t) × Outgoing t (acc ++ bytes) × (t.type ≡ s.type)
unfolding send
send-Outgoing {s} bytes o =
    let (t, e, p) = add_more-Outgoing bytes o in
    (
      internal_send t,
      ap (λ x. x >>= (λ u. some (internal_send u))) e,
      internal_send-Outgoing p,
      internal_send-type t ∙ add_more-type s t bytes e,
    )
