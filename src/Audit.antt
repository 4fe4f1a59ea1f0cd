-- ===== src/Audit.antt =====
-- engine/audit.py: the hash-chained audit ledger. The digest of `_hash` and the payloads are
-- parameters: a digest is a value of a type `H` whose values are compared for equality.
use untangle.Base.{
  ℕ, ◌≡◌, String, Bool, true, false, List, [], ◌∷◌, ◌++◌, length, if◌then◌else◌, not,
}
use untangle.Base.Keys.{Eq, ◌=?◌}
pub mod Chain
mod Tests

-- The dict that is hashed.
pub record Body (H P : Type 0) : Type 0 where
  pub seq : ℕ
  pub event : String
  pub payload : P
  pub prev : H

-- A line of the file: the dict with its key `hash`.
pub record Entry (H P : Type 0) : Type 0 where
  pub body : Body H P
  pub hash : H

pub record AuditLedger (H P : Type 0) : Type 0 where
  pub entries : List (Entry H P)
  pub head : H

module _ {H P : Type 0} ⦃e : Eq H⦄ (genesis : H) (digest : H → Body H P → H) where
  abbrev pub empty_ledger : AuditLedger H P
  empty_ledger = record { entries = []; head = genesis }

  -- `append`, which returns the new head.
  unfoldable pub append : AuditLedger H P → String → P → AuditLedger H P
  append l event payload =
      let body : Body H P = record {
        seq = length l.entries;
        event = event;
        payload = payload;
        prev = l.head;
      } in
      let hash = digest l.head body in
      record { entries = l.entries ++ record { body = body; hash = hash } ∷ []; head = hash }

  -- The loop of `verify` over the entries of the file.
  unfoldable pub verify_from : H → List (Entry H P) → Bool
  verify_from prev [] = true
  verify_from prev (x ∷ xs) =
      let rest = verify_from x.hash xs in
      if not (x.body.prev =? prev)
      then false
      else if not (digest prev x.body =? x.hash)
      then false
      else rest

  unfoldable pub verify : List (Entry H P) → Bool
  unfolding verify_from
  verify = verify_from genesis
