-- ===== src/Audit/Chain.antt =====
-- The chain: what is appended verifies, and two ledgers with one root are the same.
use mathlib.Core.List.{append-nil}
use untangle.Base.{◌≡◌, ◌≢◌, refl, ap, sym, ◌∙◌, String, true, List, [], ◌∷◌, ◌++◌, arith}
use untangle.Base.Keys.{Eq, =?_eq}
use untangle.Audit.{Body, Entry, AuditLedger, empty_ledger, append, verify_from, verify}

module _ {H P : Type 0} ⦃e : Eq H⦄ (genesis : H) (digest : H → Body H P → H) where
  -- The root of a chain that starts after `prev`.
  abbrev pub root_from : H → List (Entry H P) → H
  root_from prev [] = prev
  root_from prev (x ∷ xs) = root_from x.hash xs

  -- The links of the chain are the digests of their bodies.
  abbrev Linked : H → List (Entry H P) → Type 0
  Linked prev [] = Unit
  Linked prev (x ∷ xs) = (x.body.prev ≡ prev) × (x.hash ≡ digest prev x.body) × Linked x.hash xs

  verify_from_iff_left :
      (prev : H) (xs : List (Entry H P))
      → verify_from genesis digest prev xs ≡ true
      → Linked prev xs
  unfolding verify_from
  verify_from_iff_left prev [] h = tt
  verify_from_iff_left prev (x ∷ xs) h = (
    =?_eq x.body.prev prev (ground arith),
    sym (=?_eq (digest prev x.body) x.hash (ground arith)),
    verify_from_iff_left x.hash xs (ground arith),
  )

  verify_from_iff_right :
      (prev : H) (xs : List (Entry H P))
      → Linked prev xs
      → verify_from genesis digest prev xs ≡ true
  unfolding verify_from
  verify_from_iff_right prev [] h = refl
  verify_from_iff_right prev (x ∷ xs) h = ground (
    arith,
    (e.beq_iff x.body.prev prev).1 h.0,
    (e.beq_iff (digest prev x.body) x.hash).1 (sym h.1),
    verify_from_iff_right x.hash xs h.2,
  )

  Linked-snoc :
      (prev : H) (xs : List (Entry H P)) (y : Entry H P)
      → Linked prev xs
      → y.body.prev ≡ root_from prev xs
      → y.hash ≡ digest (root_from prev xs) y.body
      → Linked prev (xs ++ y ∷ []) × (root_from prev (xs ++ y ∷ []) ≡ y.hash)
  Linked-snoc prev [] y h p q = ((p, q, tt), refl)
  Linked-snoc prev (x ∷ xs) y h p q =
      let (linked, root) = Linked-snoc x.hash xs y h.2 p q in ((h.0, h.1, linked), root)

  -- The ledgers that appending makes.
  abbrev pub append_all : AuditLedger H P → List (String × P) → AuditLedger H P
  append_all l [] = l
  append_all l ((event, payload) ∷ rest) = append_all (append genesis digest l event payload) rest

  append_all-Linked :
      (l : AuditLedger H P) (events : List (String × P))
      → Linked genesis l.entries
      → root_from genesis l.entries ≡ l.head
      → Linked genesis (append_all l events).entries
        × (root_from genesis (append_all l events).entries ≡ (append_all l events).head)
  unfolding append
  append_all-Linked l [] h r = (h, r)
  append_all-Linked l ((event, payload) ∷ rest) h r =
      let (linked, root) = Linked-snoc genesis l.entries _ h (sym r) (rw r refl) in
      append_all-Linked (append genesis digest l event payload) rest linked root

  -- A ledger that was built by appending verifies, and its root is the hash of its last entry.
  pub append-verify :
      (events : List (String × P))
      → (verify genesis digest (append_all (empty_ledger genesis digest) events).entries ≡ true)
        × (root_from genesis (append_all (empty_ledger genesis digest) events).entries
            ≡ (append_all (empty_ledger genesis digest) events).head)
  unfolding verify
  append-verify events =
      let (linked, root) = append_all-Linked (empty_ledger genesis digest) events tt refl in
      (verify_from_iff_right genesis _ linked, root)

  -- The chain from its newest entry back.
  abbrev back_root : List (Entry H P) → H
  back_root [] = genesis
  back_root (x ∷ xs) = x.hash

  abbrev LinkedBack : List (Entry H P) → Type 0
  LinkedBack [] = Unit
  LinkedBack (x ∷ xs) = (x.hash ≡ digest (back_root xs) x.body) × LinkedBack xs

  abbrev rev_onto : List (Entry H P) → List (Entry H P) → List (Entry H P)
  rev_onto [] acc = acc
  rev_onto (x ∷ xs) acc = rev_onto xs (x ∷ acc)

  rev_onto-rev_onto :
      (xs acc out : List (Entry H P)) → rev_onto (rev_onto xs acc) out ≡ rev_onto acc (xs ++ out)
  rev_onto-rev_onto [] acc out = refl
  rev_onto-rev_onto (x ∷ xs) acc out = rev_onto-rev_onto xs (x ∷ acc) out

  LinkedBack-rev_onto :
      (xs acc : List (Entry H P))
      → Linked (back_root acc) xs
      → LinkedBack acc
      → LinkedBack (rev_onto xs acc) × (back_root (rev_onto xs acc) ≡ root_from (back_root acc) xs)
  LinkedBack-rev_onto [] acc h b = (b, refl)
  LinkedBack-rev_onto (x ∷ xs) acc h b = LinkedBack-rev_onto xs (x ∷ acc) h.2 (h.1, b)

  module _
      (collision_free : (p q : H) (b c : Body H P) → digest p b ≡ digest q c → (p ≡ q) × (b ≡ c))
      (never_genesis : (p : H) (b : Body H P) → digest p b ≢ genesis) where
    same_back :
        (xs ys : List (Entry H P))
        → LinkedBack xs
        → LinkedBack ys
        → back_root xs ≡ back_root ys
        → xs ≡ ys
    same_back [] [] h k r = refl
    same_back [] (y ∷ ys) h k r = absurd (never_genesis (back_root ys) y.body (sym k.0 ∙ sym r))
    same_back (x ∷ xs) [] h k r = absurd (never_genesis (back_root xs) x.body (sym h.0 ∙ r))
    same_back (x ∷ xs) (y ∷ ys) h k r =
        let (older, bodies) =
          collision_free (back_root xs) (back_root ys) x.body y.body (sym h.0 ∙ r ∙ k.0) in
        let rest = same_back xs ys h.1 k.1 older in
        let first : x ≡ y = same_entry x y bodies r in
        ap (λ z. z ∷ xs) first ∙ ap (λ zs. y ∷ zs) rest
      where
        same_entry : (x y : Entry H P) → x.body ≡ y.body → x.hash ≡ y.hash → x ≡ y
        same_entry x y b h =
            ap (λ c. record { body = c; hash = x.hash }) b
            ∙ ap (λ g. record { body = y.body; hash = g }) h

    -- For a digest without collisions that never gives the genesis value, two files that verify and
    -- have the same root hold the same entries: no past entry can be changed, dropped or added
    -- without a change of the root.
    pub verify_tamper_evident :
        (xs ys : List (Entry H P))
        → verify genesis digest xs ≡ true
        → verify genesis digest ys ≡ true
        → root_from genesis xs ≡ root_from genesis ys
        → xs ≡ ys
    unfolding verify
    verify_tamper_evident xs ys h k r =
        let (bx, rx) = LinkedBack-rev_onto xs [] (verify_from_iff_left genesis xs h) tt in
        let (by, ry) = LinkedBack-rev_onto ys [] (verify_from_iff_left genesis ys k) tt in
        let back = same_back (rev_onto xs []) (rev_onto ys []) bx by (rx ∙ r ∙ sym ry) in
        sym (append-nil xs)
        ∙ sym (rev_onto-rev_onto xs [] [])
        ∙ ap (λ zs. rev_onto zs []) back
        ∙ rev_onto-rev_onto ys [] []
        ∙ append-nil ys
