-- ===== src/Verify/Blocks.antt =====
-- A block or a transaction passes exactly when its recomputed hash is the one wanted.
use mnr.Common.{
  ℕ, ◌≤◌, ◌≡◌, ◌↔◌, inl, inr, sym, ap, Bool-cases, Option-cases, Result-cases, some, List, ok,
  Result, arith, length, ltb,
}
use Prim.Native.String.{String}
use mnr.HeaderChain.Store.{Hash, same_iff, hash_at}
use mnr.Hash.{Oxide, ParsedBlock, parse_block, tx_hash, pruned_tx_hash, read_whole}
use mnr.Verify.Checks.{
  Expected, by_hash, by_height, match_hash, match_block, verify_block, TxForm, full, pruned,
  TxLocation, in_block, in_pool, verified, verify_tx, verify_form, match_tx, match_pruned,
  location_error,
}

-- What the block was asked for.
abbrev pub IsExpected : ParsedBlock → Expected → Type 0
IsExpected b (by_hash want) = b.hash ≡ want
IsExpected b (by_height height chain) = (b.height ≡ height) × (hash_at chain height ≡ some b.hash)

match_hash_iff :
    (b p : ParsedBlock) (want : Hash) → (match_hash b want ≡ ok p) ↔ ((b.hash ≡ want) × (p ≡ b))
unfolding match_hash
match_hash_iff b p want =
    ((λ h. ground (arith, same_iff b.hash want)), λ h. ground (arith, same_iff b.hash want))

match_block_iff :
    (b p : ParsedBlock) (x : Expected) → (match_block b x ≡ ok p) ↔ (IsExpected b x × (p ≡ b))
unfolding match_block
match_block_iff b p (by_hash want) = match_hash_iff b p want
match_block_iff b p (by_height height chain) = elim (Option-cases (hash_at chain height)) [
  | inl absent ↦ rw absent ((λ h. ground arith), λ h. cc)
  | inr (want, found) ↦
      rw found
        ((λ h. ground (arith, same_iff b.hash want)), λ h. ground (arith, same_iff b.hash want))
]

-- `verify_block` passes a blob exactly when it parses as one block that carries the requested hash,
-- or the requested height and the hash that the header chain has there; the block that it returns is
-- the parsed one.
pub verify_block_iff :
    (o : Oxide) (blob : List ℕ) (x : Expected) (p : ParsedBlock)
    → (verify_block o blob x ≡ ok p) ↔ ((parse_block o blob ≡ ok p) × IsExpected p x)
unfolding verify_block
verify_block_iff o blob x p = elim (Result-cases (parse_block o blob)) [
  | inl (b, parsed) ↦ rw parsed (
    (λ h. let (as_wanted, is) = (match_block_iff b p x).0 h in (ap ok (sym is), rw is as_wanted)),
    λ (h, as_wanted). (match_block_iff b p x).1 (let is : b ≡ p = cc in (rw is as_wanted, sym is)),
  )
  | inr (e, failed) ↦ rw failed ((λ h. cc), λ h. cc)
]

-- `read_whole` returns what a reader read exactly when the reader succeeds and has consumed all of
-- the blob.
pub read_whole-eq-ok_iff :
    {A : Type 0} (read : List ℕ → Result String (A × ℕ)) (blob : List ℕ) (a : A)
    → (read_whole read blob ≡ ok a) ↔ ((n : ℕ) × (read blob ≡ ok (a, n)) × (length blob ≤ n))
unfolding read_whole
read_whole-eq-ok_iff read blob a = elim (Result-cases (read blob)) [
  | inl ((b, n), done) ↦ rw done ((λ h. (n, ground arith, ground arith)), λ h. ground arith)
  | inr (e, failed) ↦ rw failed ((λ h. cc), λ h. cc)
]

-- What the node says of the transaction's place is possible.
abbrev pub IsAtOrBelow : TxLocation → ℕ → Type 0
IsAtOrBelow (in_block height) tip = height ≤ tip
IsAtOrBelow in_pool tip = Unit

-- The blob hashes to the id.
abbrev pub HashesTo : Oxide → TxForm → Hash → Type 0
HashesTo o (full blob) txid = tx_hash o blob ≡ ok txid
HashesTo o (pruned blob prunable_hash) txid = pruned_tx_hash o blob prunable_hash ≡ ok txid

match_tx_iff : (txid got : Hash) → (match_tx txid got ≡ ok verified) ↔ (got ≡ txid)
unfolding match_tx
match_tx_iff txid got =
    ((λ h. ground (arith, same_iff got txid)), λ h. ground (arith, same_iff got txid))

verify_form_iff :
    (o : Oxide) (form : TxForm) (txid : Hash)
    → (verify_form o form txid ≡ ok verified) ↔ HashesTo o form txid
unfolding verify_form
verify_form_iff o (full blob) txid = elim (Result-cases (tx_hash o blob)) [
  | inl (got, done) ↦
      rw done ((λ h. ap ok ((match_tx_iff txid got).0 h)), λ h. (match_tx_iff txid got).1 (cc))
  | inr (e, failed) ↦ rw failed ((λ h. cc), λ h. cc)
]
verify_form_iff o (pruned blob p) txid = elim (Result-cases (pruned_tx_hash o blob p)) [
  | inl (got, done) ↦ rw done (
      unfold match_pruned in
      ((λ h. ap ok ((match_tx_iff txid got).0 h)), λ h. (match_tx_iff txid got).1 (cc)))
  | inr (e, failed) ↦ rw failed (unfold match_pruned in ((λ h. ground arith), λ h. ground arith))
]

-- `verify_tx` answers `Verified` exactly when the blob is read to its end and hashes to the
-- requested id, and a confirmed transaction claims no height above the tip.
pub verify_tx_iff :
    (o : Oxide) (form : TxForm) (txid : Hash) (location : TxLocation) (tip : ℕ)
    → (verify_tx o form txid location tip ≡ ok verified)
      ↔ (IsAtOrBelow location tip × HashesTo o form txid)
unfolding verify_tx
verify_tx_iff o form txid in_pool tip =
    let f = verify_form_iff o form txid in ((λ h. (tt, f.0 h)), λ h. f.1 h.1)
verify_tx_iff o form txid (in_block height) tip =
    let f = verify_form_iff o form txid in
    elim (Bool-cases (ltb tip height)) [
      | inl above ↦ rw (above, verify_tx, location_error) ((λ h. cc), λ h. absurd (ground arith))
      | inr below ↦
          rw (below, verify_tx, location_error) ((λ h. (ground arith, f.0 h)), λ h. f.1 h.1)
    ]
