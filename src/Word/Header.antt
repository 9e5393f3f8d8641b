-- ===== src/Word/Header.antt =====
-- Two numbers side by side, as in a chunk's header: written over eight bytes, patched, read back.
use semihost.Base.{
  ℕ, ◌+◌, some, ◌≡◌, sym, arith, length, ap, ◌∙◌, ◌++◌, append_assoc, length-append, take, drop,
  take-append-drop, length-take, length-drop,
}
use semihost.Memory.{Bytes, ◌>>=◌}
use semihost.Word.{u32, u32_le, read_u32_le, write_u32_le}
use semihost.Word.Laws.{write_u32_le_over, read_u32_le-u32_le, read_u32_le-append, length-u32_le}

-- The second number is at the first one's end.
pub write_second :
    (pre old post : Bytes) (a v : ℕ)
    → length old ≡ 4
    → write_u32_le (pre ++ (u32_le a ++ (old ++ post))) (length pre + 4) v
      ≡ some (pre ++ (u32_le a ++ (u32_le v ++ post)))
write_second pre old post a v h =
    let at : length pre + 4 ≡ length (pre ++ u32_le a) =
      omega (arith, length-append pre (u32_le a), length-u32_le a) in
    rw
      (
        at,
        ← append_assoc pre (u32_le a) (old ++ post),
        ← append_assoc pre (u32_le a) (u32_le v ++ post),
      )
      (write_u32_le_over (pre ++ u32_le a) old post v h)

pub write_both :
    (pre old post : Bytes) (a b : ℕ)
    → length old ≡ 8
    → (write_u32_le (pre ++ (old ++ post)) (length pre) a >>= λ x.
        write_u32_le x (length pre + 4) b)
      ≡ some (pre ++ (u32_le a ++ (u32_le b ++ post)))
write_both pre old post a b h =
    let first = take 4 old in
    let second = drop 4 old in
    let whole : old ≡ first ++ second = sym (take-append-drop 4 old) in
    let l : length first ≡ 4 = omega (arith, length-take 4 old) in
    let m : length second ≡ 4 = omega (arith, length-drop 4 old) in
    rw
      (
        ap (λ (o : Bytes). pre ++ (o ++ post)) whole,
        append_assoc first second post,
        write_u32_le_over pre first (second ++ post) a l,
      )
      (write_second pre second post a b m)

pub read_first :
    (pre post : Bytes) (a b : ℕ)
    → read_u32_le (pre ++ (u32_le a ++ (u32_le b ++ post))) (length pre) ≡ some (u32 a)
read_first pre post a b =
    ap (read_u32_le (pre ++ (u32_le a ++ (u32_le b ++ post)))) (omega arith)
    ∙ read_u32_le-append pre (u32_le a ++ (u32_le b ++ post)) 0
    ∙ read_u32_le-u32_le (u32_le b ++ post) a

pub read_second :
    (pre post : Bytes) (a b : ℕ)
    → read_u32_le (pre ++ (u32_le a ++ (u32_le b ++ post))) (length pre + 4) ≡ some (u32 b)
read_second pre post a b =
    let at : length pre + 4 ≡ length (pre ++ u32_le a) + 0 =
      omega (arith, length-append pre (u32_le a), length-u32_le a) in
    rw (at, ← append_assoc pre (u32_le a) (u32_le b ++ post))
      (read_u32_le-append (pre ++ u32_le a) (u32_le b ++ post) 0 ∙ read_u32_le-u32_le post b)
