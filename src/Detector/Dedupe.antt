-- ===== src/Detector/Dedupe.antt =====
-- `_dedupe` of services/sensitive_data_detection.py.
use auth_claw.Detector.Sorting.{sort}
use auth_claw.Detector.State.{SensitiveFinding, finding_eq, is_same}
use auth_claw.Policy.Json.{items}
use auth_claw.Prelude.{
  Bool, List, [], any, if◌then◌else◌, is_empty, keep, leb, ltb, not, ◌&&◌, ◌++◌, ◌-◌, ◌==◌, ◌||◌,
  ◌∷◌,
}

-- sorted by (start, -(end - start), -confidence), for findings that do not end before their start
abbrev pub by_place : SensitiveFinding → SensitiveFinding → Bool
by_place a b =
    ltb a.start b.start
    || a.start == b.start
      && (ltb (b.end - b.start) (a.end - a.start)
          || (b.end - b.start) == (a.end - a.start) && leb b.confidence a.confidence)

abbrev pub by_start : SensitiveFinding → SensitiveFinding → Bool
by_start a b = leb a.start b.start

unfoldable pub overlaps : SensitiveFinding → SensitiveFinding → Bool
overlaps finding item = not (leb finding.end item.start || leb item.end finding.start)

-- The later one is taken only where its (confidence, end - start) is larger.
unfoldable pub is_better : SensitiveFinding → SensitiveFinding → Bool
is_better a b =
    ltb b.confidence a.confidence
    || b.confidence == a.confidence && ltb (b.end - b.start) (a.end - a.start)

-- max(overlaps + [finding], key=...), over the items before the last one.
unfoldable pub best_of : SensitiveFinding → List SensitiveFinding → SensitiveFinding
unfolding is_better
best_of best [] = best
best_of best (x ∷ xs) = best_of (if is_better x best then x else best) xs

unfoldable pub best_with : List SensitiveFinding → SensitiveFinding → SensitiveFinding
unfolding best_of
best_with [] finding = finding
best_with (x ∷ xs) finding = best_of x (xs ++ finding ∷ [])

-- item in selected
unfoldable pub is_in : SensitiveFinding → List SensitiveFinding → Bool
unfolding finding_eq
is_in item selected = any (finding_eq item) selected

-- selected.remove(item): the first equal one.
unfoldable pub remove_first : SensitiveFinding → List SensitiveFinding → List SensitiveFinding
unfolding finding_eq
remove_first item [] = []
remove_first item (x ∷ xs) =
    let rest = remove_first item xs in if finding_eq item x then xs else x ∷ rest

-- for item in overlaps: if item in selected and item is not best: selected.remove(item)
unfoldable pub remove_worse :
    SensitiveFinding → List SensitiveFinding → List SensitiveFinding → List SensitiveFinding
unfolding is_in remove_first
remove_worse best [] selected = selected
remove_worse best (item ∷ items) selected = remove_worse best items (
    if is_in item selected && not (is_same item best) then remove_first item selected else selected)

-- The body of the loop.
unfoldable pub add_finding : SensitiveFinding → List SensitiveFinding → List SensitiveFinding
unfolding overlaps best_with is_in remove_worse
add_finding finding selected =
    let found = keep (overlaps finding) selected in
    let best = best_with found finding in
    let left = remove_worse best found selected in
    if is_empty found
    then selected ++ finding ∷ []
    else if is_same best finding && not (is_in finding left)
    then left ++ finding ∷ []
    else left

unfoldable pub select_all : List SensitiveFinding → List SensitiveFinding → List SensitiveFinding
unfolding add_finding
select_all [] selected = selected
select_all (finding ∷ findings) selected = select_all findings (add_finding finding selected)

unfoldable pub dedupe : List SensitiveFinding → List SensitiveFinding
unfolding select_all sort
dedupe findings = sort by_start (select_all (sort by_place findings) [])
