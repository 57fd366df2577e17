-- ===== src/Verify/Checks.antt =====
-- crates/core/src/verify.rs: blocks, headers and transactions against the header chain.
use mnr.Common.{
  ℕ, not, Option, none, some, List, ltb, ◌==◌, if◌then◌else◌, Result, ok, err, ◌>>=◌, map_err,
}
use mnr.HeaderChain.Store.{Hash, same, Entry, HeaderChain, get, hash_at}
use mnr.Hash.{HashError, Oxide, ParsedBlock, parse_block, tx_hash, pruned_tx_hash}

pub data VerifyError : Type 0 where
  hash : HashError → VerifyError
  hash_mismatch : Hash → Hash → VerifyError
  height_mismatch : ℕ → ℕ → VerifyError
  prev_hash_mismatch : ℕ → Hash → Hash → VerifyError
  unknown_height : ℕ → VerifyError
  above_tip : ℕ → ℕ → VerifyError

pub data Expected : Type 0 where
  by_hash : Hash → Expected
  by_height : ℕ → HeaderChain → Expected

unfoldable pub ok_or {ℓ} : {A : Type ℓ} → Option A → VerifyError → Result VerifyError A
ok_or none e = err e
ok_or (some a) e = ok a

-- The recomputed hash against the one wanted.
unfoldable pub match_hash : ParsedBlock → Hash → Result VerifyError ParsedBlock
match_hash parsed want =
    if not (same parsed.hash want) then err (hash_mismatch want parsed.hash) else ok parsed

unfoldable pub match_block : ParsedBlock → Expected → Result VerifyError ParsedBlock
unfolding match_hash ok_or
match_block parsed (by_hash want) = match_hash parsed want
match_block parsed (by_height height chain) =
    if not (parsed.height == height)
    then err (height_mismatch height parsed.height)
    else ok_or (hash_at chain height) (unknown_height height) >>= match_hash parsed

pub record ReportedHeader : Type 0 where
  pub height : ℕ
  pub hash : Hash
  pub prev_hash : Hash
  pub timestamp : ℕ

-- `From<&ReportedHeader> for Entry`
abbrev pub entry_of : ReportedHeader → Entry
entry_of r = record {
  height = r.height;
  hash = r.hash;
  prev_hash = r.prev_hash;
  timestamp = r.timestamp;
}

unfoldable pub match_header : ReportedHeader → Entry → Result VerifyError (Unit {0})
match_header reported ours =
    if not (same reported.hash ours.hash)
    then err (hash_mismatch ours.hash reported.hash)
    else if not (same reported.prev_hash ours.prev_hash)
    then err (prev_hash_mismatch reported.height ours.prev_hash reported.prev_hash)
    else if not (reported.timestamp == ours.timestamp)
    then err (hash_mismatch ours.hash reported.hash)
    else ok tt

unfoldable pub check_header_against_chain :
    ReportedHeader → HeaderChain → Result VerifyError (Unit {0})
unfolding match_header ok_or
check_header_against_chain reported chain =
    ok_or (get chain reported.height) (unknown_height reported.height) >>= match_header reported

unfoldable pub verify_header_by_height :
    ℕ → ReportedHeader → HeaderChain → Result VerifyError (Unit {0})
verify_header_by_height height reported chain =
    if not (reported.height == height)
    then err (height_mismatch height reported.height)
    else check_header_against_chain reported chain

unfoldable pub verify_header_by_hash :
    Hash → ReportedHeader → HeaderChain → Result VerifyError (Unit {0})
verify_header_by_hash requested reported chain =
    if not (same reported.hash requested)
    then err (hash_mismatch requested reported.hash)
    else check_header_against_chain reported chain

pub data TxForm : Type 0 where
  full : List ℕ → TxForm
  pruned : List ℕ → Hash → TxForm

pub data TxLocation : Type 0 where
  in_block : ℕ → TxLocation
  in_pool : TxLocation

pub data TxVerdict : Type 0 where
  verified not_verifiable : TxVerdict

unfoldable pub match_tx : Hash → Hash → Result VerifyError TxVerdict
match_tx txid got = if not (same got txid) then err (hash_mismatch txid got) else ok verified

-- What a pruned transaction's hash means.
unfoldable pub match_pruned : Hash → Result HashError Hash → Result VerifyError TxVerdict
unfolding match_tx
match_pruned txid (ok h) = match_tx txid h
match_pruned txid (err HashError.not_verifiable) = ok TxVerdict.not_verifiable
match_pruned txid (err e) = err (hash e)

unfoldable pub location_error : TxLocation → ℕ → Option VerifyError
location_error in_pool tip = none
location_error (in_block height) tip = if ltb tip height then some (above_tip height tip) else none

module _ (o : Oxide) where
  unfoldable pub verify_block : List ℕ → Expected → Result VerifyError ParsedBlock
  verify_block blob expected =
      map_err hash (parse_block o blob) >>= λ parsed. match_block parsed expected

  unfoldable pub verify_form : TxForm → Hash → Result VerifyError TxVerdict
  verify_form (full blob) txid = map_err hash (tx_hash o blob) >>= match_tx txid
  verify_form (pruned blob prunable_hash) txid =
      match_pruned txid (pruned_tx_hash o blob prunable_hash)

  unfoldable pub verify_tx : TxForm → Hash → TxLocation → ℕ → Result VerifyError TxVerdict
  unfolding location_error verify_form match_tx match_pruned
  verify_tx form txid location tip = elim (location_error location tip) [
    | some e ↦ err e
    | none ↦ verify_form form txid
  ]
