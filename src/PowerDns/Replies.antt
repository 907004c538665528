-- ===== src/PowerDns/Replies.antt =====
-- What follows from a reply that is a value, for the parts of internal/powerdns/client.go.
use any_ns.Base.{
  ap, List, ◌∷◌, [], ◌++◌, Bool, true, false, ◌≡◌, refl, ◌⊎◌, inl, inr, Text, is_empty, Bool-cases,
}
use any_ns.Base.Result.{Result, ok, err}
use any_ns.PowerDns.{Reply, invalid, failed, done, ◌>>=◌, validated, require}
use any_ns.PowerDns.Calls.{Call, Input, Service, Server, Client, endpoint, call_to, do_json}
use any_ns.PowerDns.Client.{and_then}

module _ {ℓ} {A : Type ℓ} where
  pub done_inj : {a b : A} → done a ≡ done b → a ≡ b
  done_inj h = cc

  module _ {κ} {B : Type κ} where
    pub >>=-eq-done :
        (first : Reply A) (next : A → Reply B) {b : B}
        → (first >>= next) ≡ done b
        → (a : A) × (first ≡ done a) × (next a ≡ done b)
    >>=-eq-done (invalid e) next h = cc
    >>=-eq-done (failed e) next h = cc
    >>=-eq-done (done a) next h = (a, refl, h)

    -- An operation stops without a request, or goes on with the value.
    pub and_then-cases :
        (first : Reply A) (next : A → Client B) (sent : List Call)
        → ((and_then (first, sent) next).1 ≡ sent)
          ⊎ ((a : A) × (first ≡ done a) × ((and_then (first, sent) next).1 ≡ (next a sent).1))
    and_then-cases (invalid e) next sent = inl refl
    and_then-cases (failed e) next sent = inl refl
    and_then-cases (done a) next sent = inr (a, refl, refl)

    pub and_then-eq-done :
        (first : Reply A) (next : A → Client B) (sent : List Call) {b : B}
        → (and_then (first, sent) next).0 ≡ done b
        → (a : A) × (first ≡ done a) × ((next a sent).0 ≡ done b)
    and_then-eq-done (invalid e) next sent h = cc
    and_then-eq-done (failed e) next sent h = cc
    and_then-eq-done (done a) next sent h = (a, refl, h)

  pub validated-eq-done : (m : Text) (r : Result A) {a : A} → validated m r ≡ done a → r ≡ ok a
  validated-eq-done m (err e) h = cc
  validated-eq-done m (ok a) h = ap ok (done_inj h)

  -- A request is sent once, or not at all.
  pub do_json-cases :
      (s : Server) (service : Service) (method path : Text) (input : Input)
      (decode : Text → Result A) (empty : A) (sent : List Call)
      → ((do_json s service method path input decode empty sent).1 ≡ sent)
        ⊎ ((do_json s service method path input decode empty sent).1
            ≡ sent ++ call_to s service method path input ∷ [])
  unfolding do_json
  do_json-cases s service method path input decode empty sent =
      elim (Bool-cases (is_empty (endpoint s service).0)) [
        | inl none ↦ inl (simp (none))
        | inr some ↦ inr (simp (some))
      ]

pub require-eq-done :
    (good : Bool) (m : Text) {u : Unit {0}} → require good m ≡ done u → good ≡ true
require-eq-done true m h = refl
require-eq-done false m h = cc
