-- ===== src/Str.antt =====
-- libs/string.c of Mooc_OS_Lab/lab1 (the other labs hold the same file), the C routines: those that
-- x86.h replaces by assembly are the ones under `#else`. Memory is a function from addresses to bytes,
-- below 256; pointers do not wrap. A loop that a zero byte ends runs on fuel, and `none` is its end
-- without one. A routine that writes returns the memory; each returns `dst` or `s` besides.
mod Tests
pub mod Scan
pub mod Compare
pub mod Copy
pub mod Move
pub mod Number
use algorithms_prepare.Prelude.{
  ℕ, zero, suc, ◌+◌, ◌-◌, Bool, true, false, not, ◌&&◌, ◌||◌, Option, none, some, if◌then◌else◌,
  ltb, ◌==◌,
}

abbrev pub Memory : Type 0
Memory = ℕ → ℕ

-- `*a = c`
abbrev pub store : Memory → ℕ → ℕ → Memory
store m a c b = if a == b then c else m b

-- The `int` that a comparison returns.
pub data ℤ : Type 0 where
  pos negsuc : ℕ → ℤ

unfoldable pub diff : ℕ → ℕ → ℤ
diff a b = if ltb a b then negsuc (b - a - 1) else pos (a - b)

-- The loop of `strlen` from `cnt` on.
unfoldable pub strlen_loop : ℕ → Memory → ℕ → ℕ → Option ℕ
strlen_loop zero m s cnt = none
strlen_loop (suc fuel) m s cnt =
    let rest = strlen_loop fuel m (s + 1) (cnt + 1) in if m s == 0 then some cnt else rest

unfoldable pub strlen : ℕ → Memory → ℕ → Option ℕ
strlen fuel m s = strlen_loop fuel m s 0

-- The loop of `strnlen`, with `left` characters before `len` and `cnt` behind.
unfoldable pub strnlen_loop : ℕ → Memory → ℕ → ℕ → ℕ
strnlen_loop zero m s cnt = cnt
strnlen_loop (suc left) m s cnt =
    let rest = strnlen_loop left m (s + 1) (cnt + 1) in if m s == 0 then cnt else rest

unfoldable pub strnlen : Memory → ℕ → ℕ → ℕ
strnlen m s len = strnlen_loop len m s 0

unfoldable pub strcpy : ℕ → Memory → ℕ → ℕ → Option Memory
strcpy zero m dst src = none
strcpy (suc fuel) m dst src =
    let m' = store m dst (m src) in
    let rest = strcpy fuel m' (dst + 1) (src + 1) in if m src == 0 then some m' else rest

unfoldable pub strncpy : Memory → ℕ → ℕ → ℕ → Memory
strncpy m dst src zero = m
strncpy m dst src (suc len) =
    strncpy (store m dst (m src)) (dst + 1) (if m src == 0 then src else src + 1) len

unfoldable pub strcmp : ℕ → Memory → ℕ → ℕ → Option ℤ
strcmp zero m s1 s2 = none
strcmp (suc fuel) m s1 s2 =
    let rest = strcmp fuel m (s1 + 1) (s2 + 1) in
    if not (m s1 == 0) && m s1 == m s2 then rest else some (diff (m s1) (m s2))

unfoldable pub strncmp : Memory → ℕ → ℕ → ℕ → ℤ
strncmp m s1 s2 zero = pos 0
strncmp m s1 s2 (suc n) =
    let rest = strncmp m (s1 + 1) (s2 + 1) n in
    if not (m s1 == 0) && m s1 == m s2 then rest else diff (m s1) (m s2)

-- The outer option is the fuel, the inner one `NULL`.
unfoldable pub strchr : ℕ → Memory → ℕ → ℕ → Option (Option ℕ)
strchr zero m s c = none
strchr (suc fuel) m s c =
    let rest = strchr fuel m (s + 1) c in
    if m s == 0 then some none else if m s == c then some (some s) else rest

unfoldable pub strfind : ℕ → Memory → ℕ → ℕ → Option ℕ
strfind zero m s c = none
strfind (suc fuel) m s c =
    let rest = strfind fuel m (s + 1) c in if m s == 0 || m s == c then some s else rest

unfoldable pub memset : Memory → ℕ → ℕ → ℕ → Memory
memset m s c zero = m
memset m s c (suc n) = memset (store m s c) (s + 1) c n

-- The loop that copies upwards, from the first byte on; `memcpy` is this loop.
unfoldable pub copy_up : Memory → ℕ → ℕ → ℕ → Memory
copy_up m d s zero = m
copy_up m d s (suc n) = copy_up (store m d (m s)) (d + 1) (s + 1) n

-- The loop that copies downwards; the pointers stand behind the last byte left.
unfoldable pub copy_down : Memory → ℕ → ℕ → ℕ → Memory
copy_down m d s zero = m
copy_down m d s (suc n) = copy_down (store m (d - 1) (m (s - 1))) (d - 1) (s - 1) n

unfoldable pub memcpy : Memory → ℕ → ℕ → ℕ → Memory
memcpy m dst src n = copy_up m dst src n

unfoldable pub memmove : Memory → ℕ → ℕ → ℕ → Memory
memmove m dst src n =
    if ltb src dst && ltb dst (src + n)
    then copy_down m (dst + n) (src + n) n
    else copy_up m dst src n

unfoldable pub memcmp : Memory → ℕ → ℕ → ℕ → ℤ
memcmp m s1 s2 zero = pos 0
memcmp m s1 s2 (suc n) =
    let rest = memcmp m (s1 + 1) (s2 + 1) n in if m s1 == m s2 then rest else diff (m s1) (m s2)
