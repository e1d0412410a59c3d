-- ===== src/Outcome.antt =====
-- What the functions of the library report: a value, or -1 with `errno` set.

-- The `errno` values that pdip_lib.c and pdip.c set themselves, and any other that the system sets.
pub data Errno : Type 0 where
  einval eperm enoent enospc eagain enomem eintr eio : Errno

pub data Result {ℓ} (A : Type ℓ) : Type ℓ where
  ok : A → Result A
  err : Errno → Result A
