-- ===== src/Security/SecureString/Wiped.antt =====
-- No secret is left in memory that was given back, whatever is done with the strings.
use steam_sales_tray.Shared.{
  ℕ, zero, suc, ◌*◌, ◌==◌, ◌≡◌, refl, Bool, true, false, Option, none, some, List, [], ◌∷◌, length,
  if◌then◌else◌, All,
}
use steam_sales_tray.Shared.Bytes.{Bytes, Wide}
use steam_sales_tray.Security.SecureString.{
  Memory, zeros, give_back, secure_zero, wipe, assign, move_construct, move_assign, destroy,
  keep_converted, wide_to_secure_utf8, wipe_wstring,
}

-- The strings of the program, numbered, with the memory.
pub record Strings : Type 0 where
  pub value : ℕ → Bytes
  pub memory : Memory

abbrev put : ℕ → Bytes → (ℕ → Bytes) → ℕ → Bytes
put i v f j = if j == i then v else f j

-- What the program does with its strings. A key that is read from a control is converted into a
-- string, and the text of the control is wiped.
pub data Operation : Type 0 where
  assigned : ℕ → Bytes → Operation
  wiped destroyed : ℕ → Operation
  constructed moved : ℕ → ℕ → Operation
  converted : ℕ → Wide → Operation
  text_wiped : Wide → Operation

module _ (convert : Wide → Option Bytes) where
  abbrev pub run_operation : Operation → Strings → Strings
  run_operation (assigned i chars) s =
      let (v, m) = assign chars (s.value i) s.memory in
      record { value = put i v s.value; memory = m }
  run_operation (wiped i) s =
      let (v, m) = wipe (s.value i) s.memory in record { value = put i v s.value; memory = m }
  run_operation (destroyed i) s = record {
    value = put i [] s.value;
    memory = destroy (s.value i) s.memory;
  }
  run_operation (constructed i j) s =
      let (v, left, m) = move_construct (s.value j) s.memory in
      record { value = put i v (put j left s.value); memory = m }
  run_operation (moved i j) s =
      let (v, left, m) = move_assign (i == j) (s.value i) (s.value j) s.memory in
      record { value = put i v (put j left s.value); memory = m }
  run_operation (converted i text) s =
      let (v, m) = wide_to_secure_utf8 convert text s.memory in
      let (left, rest, m') = move_assign false (s.value i) v m in
      record { value = put i left s.value; memory = m' }
  run_operation (text_wiped text) s = record s { memory = (wipe_wstring text s.memory).1 }

  unfoldable pub run_operations : List Operation → Strings → Strings
  run_operations [] s = s
  run_operations (o ∷ os) s = run_operations os (run_operation o s)

  abbrev pub IsZero : Bytes → Type 0
  IsZero block = All (λ b. b ≡ 0) block

  abbrev pub IsBlank : Memory → Type 0
  IsBlank m = All IsZero m

  zeros-IsZero : (n : ℕ) → IsZero (zeros n)
  zeros-IsZero zero = tt
  zeros-IsZero (suc n) = (refl, zeros-IsZero n)

  wipe-IsBlank : (value : Bytes) (m : Memory) → IsBlank m → IsBlank (wipe value m).1
  unfolding wipe secure_zero give_back
  wipe-IsBlank [] m h = h
  wipe-IsBlank (c ∷ value) m h = ((refl, zeros-IsZero (length value)), h)

  zeroed-IsBlank :
      (buffer : Bytes) (m : Memory) → IsBlank m → IsBlank (give_back (secure_zero buffer) m)
  unfolding secure_zero give_back
  zeroed-IsBlank [] m h = h
  zeroed-IsBlank (c ∷ buffer) m h = ((refl, zeros-IsZero (length buffer)), h)

  move_assign-IsBlank :
      (same : Bool) (value other : Bytes) (m : Memory)
      → IsBlank m
      → IsBlank (move_assign same value other m).2
  unfolding move_assign
  move_assign-IsBlank true value other m h = h
  move_assign-IsBlank false value other m h =
      wipe-IsBlank [] (wipe value m).1 (wipe-IsBlank value m h)

  keep_converted-IsBlank :
      (o : Option Bytes) (m : Memory) → IsBlank m → IsBlank (keep_converted o m).1
  unfolding keep_converted assign
  keep_converted-IsBlank none m h = h
  keep_converted-IsBlank (some buffer) m h =
      zeroed-IsBlank buffer (wipe [] m).1 (wipe-IsBlank [] m h)

  wide_to_secure_utf8-IsBlank :
      (text : Wide) (m : Memory) → IsBlank m → IsBlank (wide_to_secure_utf8 convert text m).1
  unfolding wide_to_secure_utf8
  wide_to_secure_utf8-IsBlank [] m h = h
  wide_to_secure_utf8-IsBlank (c ∷ text) m h = keep_converted-IsBlank (convert (c ∷ text)) m h

  zeros-IsBlank : (n : ℕ) (m : Memory) → IsBlank m → IsBlank (give_back (zeros n) m)
  unfolding give_back
  zeros-IsBlank zero m h = h
  zeros-IsBlank (suc n) m h = ((refl, zeros-IsZero n), h)

  wipe_wstring-IsBlank : (text : Wide) (m : Memory) → IsBlank m → IsBlank (wipe_wstring text m).1
  unfolding wipe_wstring
  wipe_wstring-IsBlank [] m h = zeros-IsBlank 0 m h
  wipe_wstring-IsBlank (c ∷ text) m h = zeros-IsBlank (length (c ∷ text) * 2) m h

  run_operation-IsBlank :
      (o : Operation) (s : Strings) → IsBlank s.memory → IsBlank (run_operation o s).memory
  unfolding assign destroy move_construct
  run_operation-IsBlank (assigned i chars) s h = wipe-IsBlank (s.value i) s.memory h
  run_operation-IsBlank (wiped i) s h = wipe-IsBlank (s.value i) s.memory h
  run_operation-IsBlank (destroyed i) s h = wipe-IsBlank (s.value i) s.memory h
  run_operation-IsBlank (constructed i j) s h = wipe-IsBlank [] s.memory h
  run_operation-IsBlank (moved i j) s h =
      move_assign-IsBlank (i == j) (s.value i) (s.value j) s.memory h
  run_operation-IsBlank (converted i text) s h =
      move_assign-IsBlank false (s.value i) _ _ (wide_to_secure_utf8-IsBlank text s.memory h)
  run_operation-IsBlank (text_wiped text) s h = wipe_wstring-IsBlank text s.memory h

  -- After any sequence of constructions, assignments, conversions, moves, wipes and destructions of
  -- the program's secret strings, every block of memory that was given back holds zeros alone, where
  -- those before did.
  pub run_operations-IsBlank :
      (os : List Operation) (s : Strings) → IsBlank s.memory → IsBlank (run_operations os s).memory
  unfolding run_operations
  run_operations-IsBlank [] s h = h
  run_operations-IsBlank (o ∷ os) s h =
      run_operations-IsBlank os (run_operation o s) (run_operation-IsBlank o s h)
