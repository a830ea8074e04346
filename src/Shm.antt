-- ===== src/Shm.antt =====
-- 4.shm/Shm.hpp: the shared memory between two processes. Whether the system has a segment for the
-- key is a Boolean. What shmget answers with IPC_CREAT|IPC_EXCL, by whether it has one, and what
-- shmat answers are arguments; an address is a number, 0 the null pointer.
pub mod Second
mod Tests
use linux_cpp.Common.{
  List, [], ◌∷◌, Bool, true, false, ◌||◌, not, if◌then◌else◌, ℤ, pos, eqb, ltz, Bytes, codes,
}

abbrev pub g_creater : ℤ
g_creater = pos 1

abbrev pub g_user : ℤ
g_user = pos 2

pub record Shm : Type 0 where
  pub key : ℤ
  pub shmid : ℤ
  pub who : ℤ
  pub addrshm : ℤ

pub role_to_string : ℤ → Bytes
role_to_string who =
    if eqb who g_creater
    then codes "Creater"
    else if eqb who g_user
    then codes "User"
    else codes "None"

-- Two processes share one system; each object is made and destroyed by its own calls.
module _ (shmget : Bool → ℤ) (shmat : ℤ → ℤ) where
  -- The id, and whether the system has a segment afterwards.
  pub get_shm_helper : Bool → ℤ × Bool
  get_shm_helper exists = (shmget exists, exists || not (ltz (shmget exists) (pos 0)))

  pub get_shm_user_create : Shm → Bool → Shm × Bool
  unfolding get_shm_helper
  get_shm_user_create shm exists =
      let (shmid, exists') = get_shm_helper exists in
      if eqb shm.who g_creater then (record shm { shmid = shmid }, exists') else (shm, exists)

  pub get_shm_for_user : Shm → Bool → Shm × Bool
  unfolding get_shm_helper
  get_shm_for_user shm exists =
      let (shmid, exists') = get_shm_helper exists in
      if eqb shm.who g_user then (record shm { shmid = shmid }, exists') else (shm, exists)

  pub attach_shm : Shm → ℤ
  attach_shm shm = shmat shm.shmid

  -- The test of the second role assigns: it makes any `who` the user's. `shmid` is set on both ways.
  pub construct : (key who : ℤ) → Bool → Shm × Bool
  unfolding get_shm_user_create get_shm_for_user attach_shm
  construct key who exists =
      let shm : Shm = record { key = key; shmid = pos 0; who = who; addrshm = pos 0 } in
      let (shm', exists') =
        if eqb who g_creater
        then get_shm_user_create shm exists
        else get_shm_for_user (record shm { who = g_user }) exists in
      (record shm' { addrshm = attach_shm shm' }, exists')

-- IPC_RMID removes the segment that the object has got.
pub destruct : Shm → Bool → Bool
destruct shm exists =
    if eqb shm.who g_creater then (if ltz shm.shmid (pos 0) then exists else false) else exists

-- The address at which `Zero` sets its bytes, if it sets any.
pub zeroed : Shm → List ℤ
zeroed shm = if eqb shm.addrshm (pos 0) then [] else (shm.addrshm ∷ [])

module _ (shmget : Bool → ℤ) (shmat : ℤ → ℤ) (key : ℤ) where
  -- Processes that run one after another, each to its end: what `Zero` has written to in each of
  -- them, and whether the system has a segment at the end.
  pub run_all : List ℤ → Bool → List (List ℤ) × Bool
  unfolding construct zeroed destruct
  run_all [] exists = ([], exists)
  run_all (who ∷ whos) exists =
      let (shm, exists') = construct shmget shmat key who exists in
      let (zeros, exists'') = run_all whos (destruct shm exists') in (zeroed shm ∷ zeros, exists'')
