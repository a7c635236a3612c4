-- ===== src/Sources/Turns.antt =====
-- One turn of the loop over the sources: what it does to the handles, and when it comes to a source.
use native.Mathlib.Nat.{add-mul-mod_self_left, mod-eq_of_lt, mod-lt, mul-suc}
use native.Mathlib.Omega.{div_any}
use instant_ai_data_workflow.Prelude.{
  ℕ, zero, suc, ◌+◌, ◌-◌, ◌*◌, ◌/◌, ◌%◌, ◌<◌, ◌≤◌, ◌≡◌, refl, ap, ◌∙◌, inl, inr, ◌⊎◌, true, false,
  none, some, List, [], ◌∷◌, ◌==◌, if◌then◌else◌, String, nat_eq, string_eq, arith, Bool-cases,
  Option-cases, length, get_elem?, le_or_lt,
}
use instant_ai_data_workflow.Prelude.Dict.{Dict, get, put, has, has-put, has-of_get}
use instant_ai_data_workflow.Sources.{Handle, Sources, count_active, scheduled, read_line, turn}

-- A number of each handle, added up.
unfoldable pub total : (Handle → ℕ) → Dict String Handle → ℕ
total f [] = 0
total f ((name, h) ∷ d) = f h + total f d

unfoldable pub alive : Handle → ℕ
alive h = if h.exhausted then 0 else 1

-- The reads that a handle takes: one for each line and one that finds the end.
unfoldable pub reads : Handle → ℕ
reads h = if h.exhausted then 0 else suc (length h.left)

unfoldable pub Distinct : Dict String Handle → Type 0
Distinct [] = Unit
Distinct ((name, h) ∷ d) = (has d name ≡ false) × Distinct d

pub total-put :
    (f : Handle → ℕ) (d : Dict String Handle) (name : String) (h new : Handle)
    → get d name ≡ some h
    → total f (put d name new) + f h ≡ total f d + f new
unfolding total get put
total-put f [] name h new found = absurd (ground arith)
total-put f ((key, v) ∷ d) name h new found = elim (Bool-cases (key == name)) [
  | inl same ↦ let p : v ≡ h = ground (arith, found, same) in rw same (omega (arith, ap f p))
  | inr other ↦ rw other (omega (arith, total-put f d name h new (ground (arith, found, other))))
]

pub put-Distinct :
    (d : Dict String Handle) (name : String) (new : Handle) → Distinct d → Distinct (put d name new)
unfolding Distinct put has
put-Distinct [] name new distinct = (refl, tt)
put-Distinct ((key, v) ∷ d) name new distinct = elim (Bool-cases (key == name)) [
  | inl same ↦ rw same distinct
  | inr other ↦ rw other (
      (
        ground (
          arith,
          has-put d name new key,
          distinct.0,
          other,
          string_eq.same_key_iff key name,
          string_eq.same_key_iff name key,
        ),
        put-Distinct d name new distinct.1,
      ))
]

-- An active handle is found under its name.
pub find_active :
    (d : Dict String Handle)
    → Distinct d
    → 0 < total alive d
    → (name : String) × (h : Handle) × (get d name ≡ some h) × (h.exhausted ≡ false)
unfolding Distinct total alive get
find_active [] distinct some_left = absurd (omega arith)
find_active ((key, v) ∷ d) distinct some_left = elim (Bool-cases v.exhausted) [
  | inr live ↦ (key, v, ground (arith, string_eq.same_key_iff key key), live)
  | inl dead ↦
      let (name, h, found, live) = find_active d distinct.1 (ground (arith, some_left, dead)) in
      (
        name,
        h,
        ground
            (arith, found, distinct.0, has-of_get d name h found, string_eq.same_key_iff key name),
        live,
      )
]

pub alive-reads : (d : Dict String Handle) → total alive d ≤ total reads d
unfolding total alive reads
alive-reads [] = omega arith
alive-reads ((key, v) ∷ d) = elim (Bool-cases v.exhausted) [
  | inl dead ↦ rw dead (omega (arith, alive-reads d))
  | inr live ↦ rw live (omega (arith, alive-reads d))
]

pub count_active-total : (d : Dict String Handle) → count_active d ≡ total alive d
unfolding count_active total alive
count_active-total [] = refl
count_active-total ((key, v) ∷ d) =
    ap (λ (n : ℕ). (if v.exhausted then 0 else 1) + n) (count_active-total d)

mod_of_round : (size i q n : ℕ) → i < size → n ≡ i + size * q → n % size ≡ i
mod_of_round size i q n within eq =
    ap (λ (m : ℕ). m % size) eq ∙ add-mul-mod_self_left i size q ∙ mod-eq_of_lt within

-- Within a round of the schedule the tick comes to each place of it.
pub tick_reaches :
    (tick size i : ℕ) → i < size → (wait : ℕ) × (wait < size) × ((tick + wait) % size ≡ i)
tick_reaches tick size i within =
    let below : tick % size < size = mod-lt tick (omega (arith, within)) in
    elim (le_or_lt (tick % size) i) [
      | inl ahead ↦
          let eq : tick + (i - tick % size) ≡ i + size * (tick / size) =
            omega (arith, ahead, div_any tick size) in
          (
            i - tick % size,
            omega (arith, within),
            mod_of_round size i (tick / size) (tick + (i - tick % size)) within eq,
          )
      | inr behind ↦
          let eq : tick + (i + size - tick % size) ≡ i + size * suc (tick / size) =
            omega (arith, below, div_any tick size, mul-suc size (tick / size)) in
          (
            i + size - tick % size,
            omega (arith, behind),
            mod_of_round size i (suc (tick / size)) (tick + (i + size - tick % size)) within eq,
          )
    ]

pub get_elem?-bound :
    (names : List String) (i : ℕ) (name : String) → get_elem? names i ≡ some name → i < length names
get_elem?-bound [] i name found = absurd (ground (arith, found))
get_elem?-bound (x ∷ xs) zero name found = omega arith
get_elem?-bound (x ∷ xs) (suc i) name found = omega (arith, get_elem?-bound xs i name found)

-- The state of the loop: `active` counts the handles that are not exhausted, the keys differ, and each
-- of them has a place in the schedule.
pub record Running (s : Sources) (active : ℕ) : Type 0 where
  pub distinct : Distinct s.handles
  pub counted : active ≡ total alive s.handles
  pub covered :
      (name : String) → has s.handles name ≡ true → (i : ℕ) × (get_elem? s.schedule i ≡ some name)

pub turn-idle :
    (s : Sources) (active : ℕ)
    → ((h : Handle) → get s.handles (scheduled s.schedule s.tick) ≡ some h → h.exhausted ≡ true)
    → turn s active ≡ (none, (record s { tick = s.tick + 1 }, active))
unfolding turn
turn-idle s active idle = elim (Option-cases (get s.handles (scheduled s.schedule s.tick))) [
  | inl missing ↦ rw (turn, missing) refl
  | inr (h, found) ↦ rw (turn, found, idle h found) refl
]

-- A turn that reads from a handle.
pub turn-live :
    (s : Sources) (active : ℕ) (h : Handle)
    → get s.handles (scheduled s.schedule s.tick) ≡ some h
    → h.exhausted ≡ false
    → turn s active
      ≡ read_line (scheduled s.schedule s.tick) h h.left (record s { tick = s.tick + 1 }) active
unfolding turn
turn-live s active h found live = rw (turn, found, live) refl

pub ticked-Running :
    (s : Sources) (active : ℕ) → Running s active → Running (record s { tick = s.tick + 1 }) active
ticked-Running s active r = record {
  distinct = r.distinct;
  counted = r.counted;
  covered = r.covered;
}

put-Running :
    (s : Sources) (active after : ℕ) (name : String) (h new : Handle)
    → Running s active
    → get s.handles name ≡ some h
    → after + alive h ≡ active + alive new
    → Running (record s { handles = put s.handles name new }) after
put-Running s active after name h new r found change = record {
  distinct = put-Distinct s.handles name new r.distinct;
  counted = omega (arith, total-put alive s.handles name h new found, r.counted, change);
  covered = λ other held. r.covered other (
      ground (
        arith,
        has-put s.handles name new other,
        has-of_get s.handles name h found,
        held,
        string_eq.same_key_iff name other,
      ));
}

pub read_line-Running :
    (s : Sources) (active : ℕ) (name : String) (h : Handle)
    → Running s active
    → get s.handles name ≡ some h
    → h.exhausted ≡ false
    → (left : List String) → h.left ≡ left
    → let after = (read_line name h left s active).1 in
      Running after.0 after.1 × (suc (total reads after.0.handles) ≡ total reads s.handles)
unfolding read_line alive reads
read_line-Running s active name h r found live [] eq =
    let new : Handle = record h { exhausted = true } in
    let reads_one : reads h ≡ 1 = rw (live, eq) refl in
    let alive_one : alive h ≡ 1 = rw live refl in
    let sums = total-put alive s.handles name h new found in
    (
      put-Running s active (active - 1) name h new r found
          (omega (arith, sums, r.counted, alive_one)),
      omega (arith, total-put reads s.handles name h new found, reads_one),
    )
read_line-Running s active name h r found live (line ∷ left) eq =
    let new : Handle = record h { left = left; next_no = h.next_no + 1 } in
    let before : reads h ≡ suc (suc (length left)) = rw (live, eq) refl in
    let behind : reads new ≡ suc (length left) = rw live refl in
    (
      put-Running s active active name h new r found refl,
      omega (arith, total-put reads s.handles name h new found, before, behind),
    )

pub read_line-schedule :
    (s : Sources) (active : ℕ) (name : String) (h : Handle) (left : List String)
    → (read_line name h left s active).1.0.schedule ≡ s.schedule
unfolding read_line
read_line-schedule s active name h [] = refl
read_line-schedule s active name h (line ∷ left) = refl

-- The source whose turn it is can be read, or the turn passes.
pub live_or_idle :
    (s : Sources)
    → ((h : Handle) × (get s.handles (scheduled s.schedule s.tick) ≡ some h)
        × (h.exhausted ≡ false))
      ⊎ ((h : Handle) → get s.handles (scheduled s.schedule s.tick) ≡ some h → h.exhausted ≡ true)
live_or_idle s = elim (Option-cases (get s.handles (scheduled s.schedule s.tick))) [
  | inl missing ↦ inr (λ h found. absurd (ground (arith, missing, found)))
  | inr (h, found) ↦ elim (Bool-cases h.exhausted) [
    | inr live ↦ inl (h, found, live)
    | inl dead ↦ inr (λ other same. ground (arith, same, found, dead))
  ]
]
