-- ===== src/Host/HostApps/Diff.antt =====
-- What the three numbers of `diff_apps` count.
use arcade_launcher_stream_e.Host.HostApps.{
  HostApp, SyncDiff, over_next, over_prev, diff_apps, find_by_name, same, note_next, note_prev,
  bool_eq, int_eq,
}
use arcade_launcher_stream_e.Base.{
  ℕ, suc, ◌+◌, Bytes, Bool, true, false, not, ◌&&◌, List, [], ◌∷◌, if◌then◌else◌, Option, none,
  some, ◌≡◌, refl, ◌∙◌, inl, inr, arith, Bool-cases, bytes_eq, bytes_eq_refl, ℤ, pos, negsuc, ◌↔◌,
  bytes_eq_iff,
}

-- How many elements pass the test.
abbrev pub count : (HostApp → Bool) → List HostApp → ℕ
count p [] = 0
count p (x ∷ xs) = if p x then suc (count p xs) else count p xs

-- The first app of that name.
unfoldable pub namesake : List HostApp → Bytes → Option HostApp
namesake [] name = none
namesake (k ∷ known) name = if bytes_eq k.name name then some k else namesake known name

-- All fields but the name are equal.
pub record Alike (a b : HostApp) : Type 0 where
  pub cmd : a.cmd ≡ b.cmd
  pub image_path : a.image_path ≡ b.image_path
  pub working_dir : a.working_dir ≡ b.working_dir
  pub output : a.output ≡ b.output
  pub elevated : a.elevated ≡ b.elevated
  pub auto_detach : a.auto_detach ≡ b.auto_detach
  pub wait_all : a.wait_all ≡ b.wait_all
  pub exit_timeout : a.exit_timeout ≡ b.exit_timeout

abbrev pub is_none : Option HostApp → Bool
is_none none = true
is_none (some _) = false

-- No app of the list has this app's name.
abbrev pub is_new : List HostApp → HostApp → Bool
is_new known a = is_none (namesake known a.name)

abbrev pub differs : HostApp → Option HostApp → Bool
differs a none = false
differs a (some p) = not (same p a)

-- The first app of that name in the list is not the same but for the name.
abbrev pub is_changed : List HostApp → HostApp → Bool
is_changed known a = differs a (namesake known a.name)

find_by_name-namesake :
    (known : List HostApp) (name : Bytes) → find_by_name known name ≡ namesake known name
unfolding find_by_name namesake
find_by_name-namesake [] name = refl
find_by_name-namesake (k ∷ known) name = rw (find_by_name-namesake known name) refl

bool_eq_iff : (a b : Bool) → (bool_eq a b ≡ true) ↔ (a ≡ b)
unfolding bool_eq
bool_eq_iff a b = ground arith

int_eq_iff : (a b : ℤ) → (int_eq a b ≡ true) ↔ (a ≡ b)
unfolding int_eq
int_eq_iff a b = ground arith

same_iff : (a b : HostApp) → (same a b ≡ true) ↔ Alike a b
unfolding same
same_iff a b = (
  λ h. record {
    cmd = (bytes_eq_iff a.cmd b.cmd).0 (ground arith);
    image_path = (bytes_eq_iff a.image_path b.image_path).0 (ground arith);
    working_dir = (bytes_eq_iff a.working_dir b.working_dir).0 (ground arith);
    output = (bytes_eq_iff a.output b.output).0 (ground arith);
    elevated = (bool_eq_iff a.elevated b.elevated).0 (ground arith);
    auto_detach = (bool_eq_iff a.auto_detach b.auto_detach).0 (ground arith);
    wait_all = (bool_eq_iff a.wait_all b.wait_all).0 (ground arith);
    exit_timeout = (int_eq_iff a.exit_timeout b.exit_timeout).0 (ground arith);
  },
  λ e.
      rw
        (
          (bytes_eq_iff a.cmd b.cmd).1 e.cmd,
          (bytes_eq_iff a.image_path b.image_path).1 e.image_path,
          (bytes_eq_iff a.working_dir b.working_dir).1 e.working_dir,
          (bytes_eq_iff a.output b.output).1 e.output,
          (bool_eq_iff a.elevated b.elevated).1 e.elevated,
          (bool_eq_iff a.auto_detach b.auto_detach).1 e.auto_detach,
          (bool_eq_iff a.wait_all b.wait_all).1 e.wait_all,
          (int_eq_iff a.exit_timeout b.exit_timeout).1 e.exit_timeout,
        )
        refl,
)

abbrev plus : SyncDiff → ℕ → ℕ → ℕ → SyncDiff
plus d a r u = record { added = d.added + a; removed = d.removed + r; updated = d.updated + u }

over_next-counts :
    (prev : List HostApp) (d : SyncDiff) (next : List HostApp)
    → over_next prev d next ≡ plus d (count (is_new prev) next) 0 (count (is_changed prev) next)
unfolding over_next
over_next-counts prev d [] = ground arith
over_next-counts prev d (n ∷ next) =
    rw (find_by_name-namesake prev n.name)
      (of_found (namesake prev n.name) (λ e. over_next-counts prev e next))
  where
    of_found :
        (o : Option HostApp)
        → ((e : SyncDiff)
            → over_next prev e next
              ≡ plus e (count (is_new prev) next) 0 (count (is_changed prev) next))
        → over_next prev (note_next d n o) next
          ≡ plus d
              (if is_none o then suc (count (is_new prev) next) else count (is_new prev) next)
              0
              (if differs n o
                then suc (count (is_changed prev) next)
                else count (is_changed prev) next)
    of_found none ih = ih (note_next d n none) ∙ ground arith
    of_found (some p) ih = elim (Bool-cases (same p n)) [
      | inl e ↦ rw e (ih d)
      | inr e ↦ rw e (
          ih (record { added = d.added; removed = d.removed; updated = suc d.updated })
          ∙ ground arith)
    ]

over_prev-counts :
    (next : List HostApp) (d : SyncDiff) (prev : List HostApp)
    → over_prev next d prev ≡ plus d 0 (count (is_new next) prev) 0
unfolding over_prev
over_prev-counts next d [] = ground arith
over_prev-counts next d (p ∷ prev) =
    rw (find_by_name-namesake next p.name)
      (of_found (namesake next p.name) (λ e. over_prev-counts next e prev))
  where
    of_found :
        (o : Option HostApp)
        → ((e : SyncDiff) → over_prev next e prev ≡ plus e 0 (count (is_new next) prev) 0)
        → over_prev next (note_prev d o) prev
          ≡ plus d 0
              (if is_none o then suc (count (is_new next) prev) else count (is_new next) prev)
              0
    of_found none ih = ih (note_prev d none) ∙ ground arith
    of_found (some _) ih = ih d

-- `diff_apps` counts the apps of `next` whose name `prev` does not have, those of `prev` whose name
-- `next` does not have, and those of `next` whose first namesake in `prev` is not the same; two apps
-- are the same exactly when all their fields but the name are equal.
pub diff_apps-counts :
    (prev next : List HostApp)
    → (diff_apps prev next ≡ record {
      added = count (is_new prev) next;
      removed = count (is_new next) prev;
      updated = count (is_changed prev) next;
    })
      × ((a b : HostApp) → (same a b ≡ true) ↔ Alike a b)
unfolding diff_apps
diff_apps-counts prev next = (
  over_prev-counts next (over_next prev (record { added = 0; removed = 0; updated = 0 }) next) prev
      ∙ rw (over_next-counts prev (record { added = 0; removed = 0; updated = 0 }) next)
          (ground arith),
  same_iff,
)

unfoldable pub is_fresh : Bytes → List HostApp → Bool
is_fresh name [] = true
is_fresh name (a ∷ apps) = not (bytes_eq name a.name) && is_fresh name apps

-- No two apps of the list share a name.
unfoldable pub names_differ : List HostApp → Bool
names_differ [] = true
names_differ (a ∷ apps) = is_fresh a.name apps && names_differ apps

-- Every app of `xs` is found in `known` under its name.
abbrev AllFound : List HostApp → List HostApp → Type 0
AllFound known [] = Unit
AllFound known (x ∷ xs) = (namesake known x.name ≡ some x) × AllFound known xs

namesake_tail :
    (a : HostApp) (known xs : List HostApp)
    → is_fresh a.name xs ≡ true
    → AllFound known xs
    → AllFound (a ∷ known) xs
unfolding is_fresh namesake
namesake_tail a known [] h f = tt
namesake_tail a known (x ∷ xs) h (f, fs) =
    ((ground arith), namesake_tail a known xs (ground arith) fs)

AllFound-self : (apps : List HostApp) → names_differ apps ≡ true → AllFound apps apps
unfolding names_differ namesake
AllFound-self [] h = tt
AllFound-self (a ∷ apps) h = (
  rw (bytes_eq_refl a.name),
  namesake_tail a apps apps (ground arith) (AllFound-self apps (ground arith)),
)

bool_eq_refl : (b : Bool) → bool_eq b b ≡ true
unfolding bool_eq
bool_eq_refl true = refl
bool_eq_refl false = refl

int_eq_refl : (z : ℤ) → int_eq z z ≡ true
unfolding int_eq
int_eq_refl (pos n) = ground arith
int_eq_refl (negsuc n) = ground arith

same_refl : (a : HostApp) → same a a ≡ true
unfolding same
same_refl a = simp (bytes_eq_refl, bool_eq_refl, int_eq_refl) refl

count_new_none : (known xs : List HostApp) → AllFound known xs → count (is_new known) xs ≡ 0
count_new_none known [] f = refl
count_new_none known (x ∷ xs) (f, fs) = rw f (count_new_none known xs fs)

count_changed_none : (known xs : List HostApp) → AllFound known xs → count (is_changed known) xs ≡ 0
count_changed_none known [] f = refl
count_changed_none known (x ∷ xs) (f, fs) = rw (f, same_refl x) (count_changed_none known xs fs)

-- Publishing a list whose names differ over itself changes nothing.
pub diff_apps_self :
    (apps : List HostApp)
    → names_differ apps ≡ true
    → diff_apps apps apps ≡ record { added = 0; removed = 0; updated = 0 }
diff_apps_self apps h =
    let found = AllFound-self apps h in
    rw (
      (diff_apps-counts apps apps).0,
      count_new_none apps apps found,
      count_changed_none apps apps found,
    )
