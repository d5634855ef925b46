-- ===== src/Settings/Put.antt =====
-- Reading a settings mapping after a write.
use docker_development_envir.Common.{
  ◌==◌, nat_eq, list_eq, Text, ◌≡◌, refl, put, get-put, if◌then◌else◌, Bool-cases, inl, inr,
}
use docker_development_envir.Settings.{Values, value_of}

pub value_of-put :
    (k j v : Text) (m : Values) → value_of j (put k v m) ≡ (if k == j then v else value_of j m)
value_of-put k j v m =
    rw (value_of, get-put k j v m)
      (elim (Bool-cases (k == j)) [ inl same ↦ rw same refl | inr other ↦ rw other refl ])
