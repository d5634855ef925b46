-- ===== src/Deploy/History/Laws.antt =====
-- What the live release and the rollback target are, and what a new entry does to them.
use docker_development_envir.Common.{
  Bool, true, false, not, ◌&&◌, ◌==◌, string_eq, option_eq, List, [], ◌∷◌, ◌++◌, some, ◌≡◌, ◌≢◌,
  last?, filter_by, last?-concat, init-concat, arith, ◌∙◌,
}
use docker_development_envir.Common.Members.{
  In, last?-In, filter_by-In, last_kept, last_dropped, last_both,
}
use docker_development_envir.Attempts.{Entry, is_failed, live_entry}
use docker_development_envir.Deploy.History.{rollback_entry}

-- A completed entry becomes the live release.
pub live_entry-concat :
    (entries : List Entry) (e : Entry)
    → is_failed e ≡ false
    → live_entry (entries ++ e ∷ []) ≡ some e
unfolding live_entry
live_entry-concat entries e h = last_kept _ entries e (rw h)

-- A failed entry leaves the live release as it is.
pub live_entry-failed :
    (entries : List Entry) (e : Entry)
    → is_failed e ≡ true
    → live_entry (entries ++ e ∷ []) ≡ live_entry entries
unfolding live_entry
live_entry-failed entries e h = last_dropped _ entries e (rw h)

-- What `rollback_entry` tests of the entries before the last one.
abbrev pub is_target : Entry → Entry → Bool
is_target e x = not (is_failed x) && not (x.commit == e.commit)

pub rollback_entry-concat :
    (entries : List Entry) (e : Entry)
    → rollback_entry (entries ++ e ∷ []) ≡ last? (filter_by (is_target e) entries)
unfolding rollback_entry
rollback_entry-concat entries e =
    rw (last?-concat entries e, rollback_entry) (rw (init-concat entries e))

is_target_iff : (e x : Entry) → is_target e x ≡ true → (is_failed x ≡ false) × (x.commit ≢ e.commit)
is_target_iff e x h = ground (arith, string_eq.beq_iff x.commit e.commit)

-- The rollback target is a completed entry before the last one, of another commit than it.
pub rollback_entry_sound :
    (entries : List Entry) (e : Entry) {target : Entry}
    → rollback_entry (entries ++ e ∷ []) ≡ some target
    → In target entries × (is_failed target ≡ false) × (target.commit ≢ e.commit)
rollback_entry_sound entries e {target} h =
    let found = rw rollback_entry-concat at h in
    let kept = filter_by-In (is_target e) entries (last?-In _ found) in
    let tested = is_target_iff e target kept.0 in (kept.1, tested.0, tested.1)

-- After a failed deploy of another commit the rollback target is the release that was live.
pub rollback_entry-live :
    (entries : List Entry) (e : Entry) {live : Entry}
    → live_entry entries ≡ some live
    → live.commit ≢ e.commit
    → rollback_entry (entries ++ e ∷ []) ≡ some live
unfolding live_entry
rollback_entry-live entries e {live} h ne =
    rollback_entry-concat entries e
    ∙ last_both _ _ entries live h (ground (arith, string_eq.beq_iff live.commit e.commit))
