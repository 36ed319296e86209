-- ===== src/Shard/Scanned.antt =====
-- What the scan of `PurgeExpired` finds.
use pomaisearch.Base.{
  ℕ, ◌≡◌, ◌<◌, refl, sym, ◌∙◌, inl, inr, zero, suc, ◌≤◌, not, ◌&&◌, [], ◌∷◌, leb, if◌then◌else◌,
  length-append, true, false, List, some, arith, ◌==◌, length, get_elem?, get_or, Bool-cases,
}
use mathlib.Core.Path.{subst}
use pomaisearch.Base.Maps.{bytes_key}
use pomaisearch.Types.{is_expired}
use pomaisearch.Shard.{ShardDoc, no_doc, Scan, scan, scan_one}

-- There is nothing to collect at any place.
abbrev pub NoneDue : ℕ → List ShardDoc → Type 0
NoneDue now docs =
    (j : ℕ)
    → (not (get_or docs j no_doc).deleted && is_expired now (get_or docs j no_doc).expiry) ≡ false

scan_one-kept :
    (now : ℕ) (s : Scan)
    → NoneDue now s.docs
    → ((scan_one now s).docs ≡ s.docs) × ((scan_one now s).expired ≡ s.expired)
unfolding scan_one
scan_one-kept now s h = rw (h (if leb (length s.docs) s.cursor then 0 else s.cursor)) (refl, refl)

pub scan-none :
    (now n : ℕ) (s : Scan) → NoneDue now s.docs → s.expired ≡ [] → (scan now n s).expired ≡ []
unfolding scan
scan-none now zero s h e = e
scan-none now (suc n) s h e =
    let (docs, expired) = scan_one-kept now s h in
    scan-none now n (scan_one now s) (subst (NoneDue now) (sym docs) h) (expired ∙ e)

scan_one-grows : (now : ℕ) (s : Scan) → length s.expired ≤ length (scan_one now s).expired
unfolding scan_one
scan_one-grows now s =
    let cursor = if leb (length s.docs) s.cursor then 0 else s.cursor in
    let doc = get_or s.docs cursor no_doc in
    elim (Bool-cases (not doc.deleted && is_expired now doc.expiry)) [
      | inl due ↦ rw due (omega (arith, length-append s.expired ((cursor, doc.offset) ∷ [])))
      | inr keep ↦ rw keep (omega arith)
    ]

-- A scan forgets no document that it has found.
scan-grows : (now n : ℕ) (s : Scan) → length s.expired ≤ length (scan now n s).expired
unfolding scan
scan-grows now zero s = omega arith
scan-grows now (suc n) s = omega (arith, scan_one-grows now s, scan-grows now n (scan_one now s))

pub scan_one-scan :
    (now n : ℕ) (s : Scan) → length (scan_one now s).expired ≤ length (scan now (suc n) s).expired
unfolding scan
scan_one-scan now n s = scan-grows now n (scan_one now s)

pub scan_one-found :
    (now : ℕ) (s : Scan)
    → s.cursor < length s.docs
    → (not (get_or s.docs s.cursor no_doc).deleted
        && is_expired now (get_or s.docs s.cursor no_doc).expiry)
      ≡ true
    → 0 < length (scan_one now s).expired
unfolding scan_one
scan_one-found now s h due =
    let doc = get_or s.docs s.cursor no_doc in
    let within : leb (length s.docs) s.cursor ≡ false = ground (arith, h) in
    rw within (rw due (omega (arith, length-append s.expired ((s.cursor, doc.offset) ∷ []))))

pub not_zero : (n : ℕ) → 0 < n → (n == 0) ≡ false
not_zero n h = ground (arith, h)

-- What holds of a document that is there, and of none, holds of the document at a place.
pub get_or-due :
    (now : ℕ) (docs : List ShardDoc) (j : ℕ)
    → ((doc : ShardDoc)
        → get_elem? docs j ≡ some doc
        → (not doc.deleted && is_expired now doc.expiry) ≡ false)
    → (not (get_or docs j no_doc).deleted && is_expired now (get_or docs j no_doc).expiry) ≡ false
unfolding is_expired
get_or-due now [] j h = refl
get_or-due now (doc ∷ docs) zero h = h doc refl
get_or-due now (doc ∷ docs) (suc j) h = get_or-due now docs j h
