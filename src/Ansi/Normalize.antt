-- ===== src/Ansi/Normalize.antt =====
-- ansi_path_normalize of src/c/zbc_ansi_secure.c: a path is rewritten in its own buffer, with a
-- position that reads and one that writes.
use semihost.Base.{
  ℕ, zero, suc, ◌+◌, ◌-◌, Bool, true, false, not, ◌==◌, ltb, ◌&&◌, ◌||◌, if◌then◌else◌, Option,
  none, some,
}
use semihost.Memory.{Bytes, ◌>>=◌, load, store}
pub mod Reference
pub mod Clean
pub mod Stack
pub mod Under
pub mod Rounds
pub mod Loop
pub mod Refines
pub mod Kept

abbrev pub slash : ℕ
slash = 47

abbrev pub backslash : ℕ
backslash = 92

abbrev pub dot : ℕ
dot = 46

-- c == '/' || c == '\\'
abbrev pub is_slash : ℕ → Bool
is_slash c = c == slash || c == backslash

-- while (read_pos < path_len && (path[read_pos] == '/' || path[read_pos] == '\\')) read_pos++;
unfoldable pub skip_slashes : ℕ → Bytes → ℕ → ℕ → Option ℕ
skip_slashes zero path path_len read_pos = none
skip_slashes (suc fuel) path path_len read_pos =
    let more = skip_slashes fuel path path_len (read_pos + 1) in
    if ltb read_pos path_len
    then (do c ← load path read_pos; if is_slash c then more else some read_pos)
    else some read_pos

-- while (write_pos > floor && path[write_pos - 1] != '/' && path[write_pos - 1] != '\\')
--   write_pos--;
unfoldable pub back_to_slash : Bytes → ℕ → ℕ → Option ℕ
back_to_slash path floor zero = some 0
back_to_slash path floor (suc write_pos) =
    let more = back_to_slash path floor write_pos in
    if ltb floor (suc write_pos)
    then (do c ← load path write_pos; if is_slash c then some (suc write_pos) else more)
    else some (suc write_pos)

-- comp_len == 1 && path[component_start] == '.'
unfoldable pub is_one_dot : Bytes → ℕ → ℕ → Option Bool
is_one_dot path component_start write_pos =
    if write_pos - component_start == 1
    then (do a ← load path component_start; some (a == dot))
    else some false

-- comp_len == 2 && path[component_start] == '.' && path[component_start + 1] == '.'
unfoldable pub is_two_dots : Bytes → ℕ → ℕ → Option Bool
is_two_dots path component_start write_pos =
    if write_pos - component_start == 2
    then (do
      a ← load path component_start
      if a == dot then (do b ← load path (component_start + 1); some (b == dot)) else some false)
    else some false

-- What the end of a component leaves of write_pos
unfoldable pub end_component : Bytes → Bool → ℕ → ℕ → Option ℕ
end_component path is_absolute component_start write_pos = do
  one ← is_one_dot path component_start write_pos
  two ← is_two_dots path component_start write_pos
  if one
      then some component_start
      else if two
      then (if ltb 0 component_start
          then back_to_slash path (if is_absolute then 1 else 0) (component_start - 1)
          else some component_start)
      else some write_pos

pub record Cursor : Type 0 where
  pub path : Bytes
  pub read_pos : ℕ
  pub write_pos : ℕ
  pub component_start : ℕ

-- if (write_pos > 0 && read_pos < path_len) path[write_pos++] = '/'; component_start = write_pos;
unfoldable pub add_slash : ℕ → Bytes → ℕ → ℕ → Option Cursor
add_slash path_len path read_pos write_pos =
    if ltb 0 write_pos && ltb read_pos path_len
    then (do
      path ← store path write_pos slash
      some record {
        path = path;
        read_pos = read_pos;
        write_pos = write_pos + 1;
        component_start = write_pos + 1;
      })
    else some record {
      path = path;
      read_pos = read_pos;
      write_pos = write_pos;
      component_start = write_pos;
    }

-- One round of the main loop
unfoldable pub normalize_step : ℕ → Bool → Cursor → Option Cursor
normalize_step path_len is_absolute k = do
  c ← load k.path k.read_pos
  if is_slash c
      then (do
        write_pos ← end_component k.path is_absolute k.component_start k.write_pos
        read_pos ← skip_slashes (suc (path_len - k.read_pos)) k.path path_len k.read_pos
        add_slash path_len k.path read_pos write_pos)
      else (do
        path ← store k.path k.write_pos c
        some record {
          path = path;
          read_pos = k.read_pos + 1;
          write_pos = k.write_pos + 1;
          component_start = k.component_start;
        })

-- while (read_pos < path_len) { … }
unfoldable pub normalize_loop : ℕ → ℕ → Bool → Cursor → Option Cursor
normalize_loop zero path_len is_absolute k = none
normalize_loop (suc fuel) path_len is_absolute k =
    if ltb k.read_pos path_len
    then (do k ← normalize_step path_len is_absolute k; normalize_loop fuel path_len is_absolute k)
    else some k

-- The trailing component
unfoldable pub end_path : Bytes → ℕ → ℕ → Option ℕ
end_path path component_start write_pos = do
  one ← is_one_dot path component_start write_pos
  two ← is_two_dots path component_start write_pos
  if one
      then some (component_start - 1)
      else if two
      then (if ltb 0 component_start
          then (do w ← back_to_slash path 0 (component_start - 1); some (w - 1))
          else some component_start)
      else some write_pos

-- Remove trailing slash unless it's the root
unfoldable pub strip_slash : Bytes → ℕ → Option ℕ
strip_slash path write_pos =
    if ltb 1 write_pos
    then (do c ← load path (write_pos - 1); some (if c == slash then write_pos - 1 else write_pos))
    else some write_pos

-- The cursor in front of the main loop
unfoldable pub start : Bytes → ℕ → Bool → Option Cursor
start path path_len is_absolute =
    if is_absolute
    then (do
      path ← store path 0 slash
      read_pos ← skip_slashes (suc path_len) path path_len 0
      some record { path = path; read_pos = read_pos; write_pos = 1; component_start = 1 })
    else some record { path = path; read_pos = 0; write_pos = 0; component_start = 0 }

-- The buffer afterwards and the new length. A round of the loop reads a byte at least, so
-- path_len + 1 rounds are enough; `Refines` proves it.
unfoldable pub ansi_path_normalize : Bytes → ℕ → Option (Bytes × ℕ)
ansi_path_normalize path path_len = if path_len == 0 then some (path, 0) else (do
  first ← load path 0
  k ← start path path_len (is_slash first)
  k ← normalize_loop (suc path_len) path_len (is_slash first) k
  write_pos ← end_path k.path k.component_start k.write_pos
  write_pos ← strip_slash k.path write_pos
  path ← store k.path write_pos 0
  some (path, write_pos))
