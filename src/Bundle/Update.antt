-- ===== src/Bundle/Update.antt =====
-- cmd/aurvet/update.go: what `update` does with the status of `Verify`: the floor that it keeps, and its exit
-- code. The save's outcome is an argument; Bundle/Floor models the save itself.
use aurvet.Prelude.{Bool, if◌then◌else◌, length, ltb, not, true, ℕ, ◌&&◌, ◌||◌}
use aurvet.Report.{exit_clean, exit_incomplete}
use aurvet.Bundle.Floor.{Floor}
use aurvet.Bundle.Verify.{Input, Status, coverage_complete}

-- The floor that is on disk behind the run, and whether there is one.
unfoldable pub kept_floor : (check saved : Bool) → Input → Status → Floor × Bool
kept_floor check saved q st =
    if st.floor_advances && not check && saved
    then (st.next_floor, true)
    else (q.floor, q.floor_present)

-- `updateExit`; `soft` counts the notes on software signatures.
unfoldable pub update_exit : Status → ℕ → ℕ
update_exit st soft =
    if not (coverage_complete st.state) || ltb 0 soft || ltb 0 (length st.gaps)
    then exit_incomplete
    else exit_clean
