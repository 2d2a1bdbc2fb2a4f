-- ===== src/Kv/Promises/Scans.antt =====
-- `TreeState.dedup_scan` against the view.
use autotree.Base.{ℕ, ◌≡◌}
use autotree.Kv.Errors.{ok}
use autotree.Kv.Pool.{Page}
use autotree.Kv.Tree.{TreeState}
use autotree.Kv.Tree.Valid.{IsValid}
use autotree.Kv.Dedup.{dedup_scan}
use autotree.Kv.Dedup.Outcome.{Scanned}
use autotree.Kv.Dedup.Scan.{dedup_scan-Scanned, dedup_scan-idle}

-- On a valid tree, `dedup_scan` succeeds, whatever the digest of a page is: the tree stays valid,
-- its view is unchanged, no two full pages of its block tables have the same bytes any more, and
-- the number of used pages has dropped by the number returned.
pub dedup_scan-refines :
    (digest : Page → ℕ) (t : TreeState) → IsValid t → Scanned t (dedup_scan digest t)
dedup_scan-refines digest t v = dedup_scan-Scanned digest t v

-- On a valid tree, a second `dedup_scan` right after the first merges nothing and changes nothing.
pub dedup_scan-settles :
    (digest : Page → ℕ) (t : TreeState)
    → IsValid t
    → dedup_scan digest (dedup_scan digest t).1 ≡ (ok 0, (dedup_scan digest t).1)
dedup_scan-settles digest t v =
    let s = dedup_scan-Scanned digest t v in
    rw s.runs (dedup_scan-idle digest s.after s.valid s.distinct)
