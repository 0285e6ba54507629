-- ===== src/Services/Registry.antt =====
-- services/mod.rs: what a client is told of a queue pair, after any registrations.
use krcore_artifacts.Prelude.{
  ℕ, ◌≡◌, refl, ◌∙◌, ap, inl, inr, Option, none, some, List, [], ◌∷◌, ◌==◌, if◌then◌else◌, arith,
  eq_cases, true, false,
}
use krcore_artifacts.Prelude.Maps.{
  lookup, insert, remove, lookup-insert_self, lookup-insert_ne, lookup-remove_self,
  lookup-remove_ne,
}
use krcore_artifacts.Services.{
  QueuePairInfo, SidrReply, Serving, ConnectionService, reg_qp, dereg_qp, reply_to, send_sidr_reply,
  handle_sidr_req,
}

pub data Registration (Q : Type 0) : Type 0 where
  registers : ℕ → Q → Registration Q
  deregisters : ℕ → Registration Q

module _ {Q R : Type 0} (info : QueuePairInfo Q R) where
  unfoldable pub register_all :
      ConnectionService info → List (Registration Q) → ConnectionService info
  register_all qps [] = qps
  register_all qps (registers hint qp ∷ rs) = register_all (reg_qp info qps hint qp) rs
  register_all qps (deregisters hint ∷ rs) = register_all (dereg_qp info qps hint) rs

  -- The specification: what the last registration of `hint` says, and `found` if there is none.
  abbrev pub last_of : ℕ → Option Q → List (Registration Q) → Option Q
  last_of hint found [] = found
  last_of hint found (registers k qp ∷ rs) = last_of hint (if hint == k then some qp else found) rs
  last_of hint found (deregisters k ∷ rs) = last_of hint (if hint == k then none else found) rs

  lookup-reg :
      (qps : ConnectionService info) (hint k : ℕ) (qp : Q)
      → lookup hint (insert k qp qps) ≡ (if hint == k then some qp else lookup hint qps)
  lookup-reg qps hint k qp = elim (eq_cases hint k) [
    | inl e ↦
        let on : (hint == k) ≡ true = ground (arith, e) in
        rw on (ap (λ i. lookup i (insert k qp qps)) e ∙ lookup-insert_self k qp qps)
    | inr ne ↦
        let off : (hint == k) ≡ false = ground (arith, ne) in
        rw off (lookup-insert_ne hint k qp qps ne)
  ]

  lookup-dereg :
      (qps : ConnectionService info) (hint k : ℕ)
      → lookup hint (remove k qps) ≡ (if hint == k then none else lookup hint qps)
  lookup-dereg qps hint k = elim (eq_cases hint k) [
    | inl e ↦
        let on : (hint == k) ≡ true = ground (arith, e) in
        rw on (ap (λ i. lookup i (remove k qps)) e ∙ lookup-remove_self k qps)
    | inr ne ↦
        let off : (hint == k) ≡ false = ground (arith, ne) in
        rw off (lookup-remove_ne hint k qps ne)
  ]

  lookup-register_all :
      (qps : ConnectionService info) (hint : ℕ) (rs : List (Registration Q))
      → lookup hint (register_all qps rs) ≡ last_of hint (lookup hint qps) rs
  unfolding register_all
  lookup-register_all qps hint [] = refl
  lookup-register_all qps hint (registers k qp ∷ rs) =
      lookup-register_all (reg_qp info qps k qp) hint rs
      ∙ ap (λ o. last_of hint o rs) (lookup-reg qps hint k qp)
  lookup-register_all qps hint (deregisters k ∷ rs) =
      lookup-register_all (dereg_qp info qps k) hint rs
      ∙ ap (λ o. last_of hint o rs) (lookup-dereg qps hint k)

  -- After any registrations and deregistrations from an empty service, a client that asks for a hint
  -- is sent the number, the key and the data of the queue pair that was registered last under it, or
  -- that there is none if the last one was a deregistration, if there was none, or if the queue pair
  -- cannot tell its data; and the service stays as it is but for the reply that it has sent.
  pub handle_sidr_req-last_of :
      (answer : SidrReply R → ℕ) (rs : List (Registration Q)) (hint : ℕ) (sent : List (SidrReply R))
      → let s : Serving info = record {
        registered_qps = register_all [] rs;
        sent_replies = sent;
      } in
        handle_sidr_req info answer hint s
        ≡ send_sidr_reply info answer (reply_to info (last_of hint none rs)) s
  unfolding handle_sidr_req
  handle_sidr_req-last_of answer rs hint sent =
      ap
        (λ o.
          send_sidr_reply info answer (reply_to info o)
            (record { registered_qps = register_all [] rs; sent_replies = sent }))
        (lookup-register_all [] hint rs)
