-- ===== src/Tests/Disks.antt =====
-- A storage that keeps the laws of files: in place or with renames, some of which it may refuse.
use httpcache_kit.Common.{
  ◌≡◌, ◌≢◌, refl, ap, Bool, true, false, Option, none, some, Text, length, arith, Bool-cases, inl,
  inr, nat_eq, if◌then◌else◌,
}
use httpcache_kit.Vfs.{FilePath, body, header}
use httpcache_kit.Transactions.Storage.{Storage, StorageLaws, Written}
use httpcache_kit.Tests.Store.{same_path}

abbrev pub Contents : Type 0
Contents = FilePath → Option Text

abbrev put : FilePath → Option Text → Contents → Contents
put p t s q = if same_path p q then t else s q

abbrev whole : Text → Written
whole t = record { bytes = length t; opened = true; done = true }

-- `renames` are the paths that a file may be renamed to.
abbrev pub disk : Bool → (FilePath → Bool) → Storage
disk on_disk renames = record {
  vfs = record {
    State = Contents;
    remove = λ p s. (none, put p none s);
    stat = λ p s. elim (s p) [ none ↦ none | some t ↦ some (length t) ];
  };
  on_disk = on_disk;
  content = λ p s. s p;
  write = λ p t s. (whole t, put p (some t) s);
  stage = λ t s. (whole t, s);
  rename = λ p t s. if renames p then (true, put p (some t) s) else (false, s);
  remove_temp = λ s. (true, s);
}

same_path_self : (p : FilePath) → same_path p p ≡ true
same_path_self (body h) = (nat_eq.same_iff h h).1 refl
same_path_self (header h) = (nat_eq.same_iff h h).1 refl

put_own : (p : FilePath) (t : Option Text) (s : Contents) → put p t s p ≡ t
put_own p t s = rw (same_path_self p) refl

same_path_sound : (p q : FilePath) → same_path p q ≡ true → p ≡ q
same_path_sound (body h) (body k) same = ap body ((nat_eq.same_iff h k).0 same)
same_path_sound (header h) (header k) same = ap header ((nat_eq.same_iff h k).0 same)
same_path_sound (body h) (header k) same = ground arith
same_path_sound (header h) (body k) same = ground arith

put_other : (p q : FilePath) (t : Option Text) (s : Contents) → p ≢ q → put p t s q ≡ s q
put_other p q t s away = elim (Bool-cases (same_path p q)) [
  | inr other ↦ rw other refl
  | inl same ↦ elim (away (same_path_sound p q same)) [ ]
]

put-none_stays : (p q : FilePath) (s : Contents) → s q ≡ none → put p none s q ≡ none
put-none_stays p q s gone = ground (arith, gone)

pub disk_laws : (on_disk : Bool) (renames : FilePath → Bool) → StorageLaws (disk on_disk renames)
disk_laws on_disk renames = record {
  removed = λ p s gone. put_own p none s;
  remove_keeps = λ p q s away. put_other p q none s away;
  stays_gone = put-none_stays;
  written = λ p t s done. (put_own p (some t) s, refl);
  unopened = λ p q t s shut. ground arith;
  write_keeps = λ p q t s away. put_other p q (some t) s away;
  staged = λ t s done. (refl, refl);
  stage_keeps = λ q t s. refl;
  renamed = λ p t s moved. elim (Bool-cases (renames p)) [
    | inl allowed ↦ rw allowed (put_own p (some t) s)
    | inr refused ↦ let absurd : false ≡ true = rw refused at moved in ground arith
  ];
  unrenamed = λ p q t s failed. elim (Bool-cases (renames p)) [
    | inl allowed ↦ let absurd : true ≡ false = rw allowed at failed in ground arith
    | inr refused ↦ rw refused refl
  ];
  rename_keeps = λ p q t s away. elim (Bool-cases (renames p)) [
    | inl allowed ↦ rw allowed (put_other p q (some t) s away)
    | inr refused ↦ rw refused refl
  ];
  remove_temp_keeps = λ q s. refl;
}
