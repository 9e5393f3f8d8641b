-- ===== src/Ansi/Normalize/Reference.antt =====
-- What ansi_path_normalize of src/c/zbc_ansi_secure.c computes, read byte by byte from one list
-- and written to another.
use semihost.Base.{
  ℕ, suc, Bool, true, false, ◌==◌, ltb, if◌then◌else◌, [], ◌∷◌, ◌++◌, length, reverse,
}
use semihost.Memory.{Bytes}
use semihost.Ansi.Normalize.{slash, dot, is_slash}

-- A stack of written bytes holds the last one first.
pub record Walk : Type 0 where
  pub done : Bytes
  pub comp : Bytes
  -- Behind a separator that is not yet written
  pub gap : Bool

unfoldable pub is_dot : Bytes → Bool
is_dot (x ∷ []) = x == dot
is_dot _ = false

unfoldable pub is_parent : Bytes → Bool
is_parent (y ∷ x ∷ []) = if x == dot then y == dot else false
is_parent _ = false

unfoldable pub tail : Bytes → Bytes
tail [] = []
tail (x ∷ xs) = xs

-- Bytes are dropped down to a separator or to `floor` bytes.
unfoldable pub pop : ℕ → Bytes → Bytes
pop floor [] = []
pop floor (x ∷ xs) =
    let more = pop floor xs in
    if ltb floor (suc (length xs)) then (if is_slash x then x ∷ xs else more) else x ∷ xs

unfoldable pub close : Bool → Bytes → Bytes → Bytes
close is_absolute done comp =
    if is_dot comp
    then done
    else if is_parent comp
    then pop (if is_absolute then 1 else 0) (tail done)
    else comp ++ done

-- A separator behind what is written, if anything is
unfoldable pub separate : Bytes → Bytes
separate [] = []
separate (x ∷ xs) = slash ∷ x ∷ xs

unfoldable pub step : Bool → Walk → ℕ → Walk
step is_absolute w c =
    if is_slash c
    then record {
      done = if w.gap then w.done else close is_absolute w.done w.comp;
      comp = [];
      gap = true;
    }
    else record {
      done = if w.gap then separate w.done else w.done;
      comp = if w.gap then c ∷ [] else c ∷ w.comp;
      gap = false;
    }

unfoldable pub steps : Bool → Walk → Bytes → Walk
steps is_absolute w [] = w
steps is_absolute w (c ∷ cs) = steps is_absolute (step is_absolute w c) cs

unfoldable pub last_component : Bytes → Bytes → Bytes
last_component done comp =
    if is_dot comp
    then tail done
    else if is_parent comp
    then tail (pop 0 (tail done))
    else comp ++ done

unfoldable pub strip : Bytes → Bytes
strip (y ∷ x ∷ xs) = if y == slash then x ∷ xs else y ∷ x ∷ xs
strip xs = xs

unfoldable pub drop_slashes : Bytes → Bytes
drop_slashes [] = []
drop_slashes (c ∷ cs) = let more = drop_slashes cs in if is_slash c then more else c ∷ cs

unfoldable pub finish : Walk → Bytes
finish w = reverse (strip (last_component w.done w.comp))

abbrev pub relative : Walk
relative = record { done = []; comp = []; gap = false }

abbrev pub absolute : Walk
absolute = record { done = slash ∷ []; comp = []; gap = false }

unfoldable pub normalized : Bytes → Bytes
normalized [] = []
normalized (c ∷ cs) =
    if is_slash c
    then finish (steps true absolute (drop_slashes (c ∷ cs)))
    else finish (steps false relative (c ∷ cs))
