-- ===== src/App/Columns.antt =====
-- `AppState` of app/src/lib.rs: the set of columns that the page shows, and the checkboxes that
-- change it.
use yaffle.Base.{
  ◌≡◌, refl, Bool, true, false, not, List, [], ◌∷◌, Bytes, text_eq, text_eq_iff, codes,
  if◌then◌else◌, arith,
}
use yaffle.Base.HashSet.{
  HashSet, from_iter, contains, insert, remove, contains-insert, contains-remove,
}

pub record AppState : Type 0 where
  pub cols_enabled : HashSet

-- `AppState::default()`, from `DEFAULT_COLS_ENABLED`
abbrev pub default : AppState
default = record {
  cols_enabled =
      from_iter
        (codes "source_timestamp" ∷ codes "comm" ∷ codes "hostname" ∷ codes "priority" ∷ []);
}

-- `on:input` of the checkbox with the value `val`, which is now `checked` or not
unfoldable pub on_input : Bytes → Bool → HashSet → HashSet
unfolding contains insert remove
on_input val checked enabled =
    if (if checked then not (contains val enabled) else contains val enabled)
    then (if checked then insert val enabled else remove val enabled)
    else enabled

-- the events in the order in which they come
unfoldable pub on_inputs : List (Bytes × Bool) → HashSet → HashSet
unfolding on_input
on_inputs [] enabled = enabled
on_inputs ((val, checked) ∷ events) enabled = on_inputs events (on_input val checked enabled)

-- the last event of a checkbox, or else what the set had
abbrev pub last_checked : Bytes → List (Bytes × Bool) → Bool → Bool
last_checked key [] before = before
last_checked key ((val, checked) ∷ events) before =
    last_checked key events (if text_eq val key then checked else before)

on_input-contains :
    (key val : Bytes) (checked : Bool) (enabled : HashSet)
    → contains key (on_input val checked enabled)
      ≡ (if text_eq val key then checked else contains key enabled)
unfolding on_input
on_input-contains key val true enabled =
    ground (arith, text_eq_iff val key, contains-insert key val enabled)
on_input-contains key val false enabled =
    ground (arith, text_eq_iff val key, contains-remove key val enabled)

-- After any events of the checkboxes a column is shown if it was last checked, and as before if its
-- checkbox had no event.
pub on_inputs-contains :
    (key : Bytes) (events : List (Bytes × Bool)) (enabled : HashSet)
    → contains key (on_inputs events enabled) ≡ last_checked key events (contains key enabled)
unfolding on_inputs
on_inputs-contains key [] enabled = refl
on_inputs-contains key ((val, checked) ∷ events) enabled =
    rw
      (
        on_inputs-contains key events (on_input val checked enabled),
        on_input-contains key val checked enabled,
      )
      refl
