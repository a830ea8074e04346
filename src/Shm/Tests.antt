-- ===== src/Shm/Tests.antt =====
-- A creater and a user, on a system that gives the id 7.
use linux_cpp.Common.{◌≡◌, refl, Bool, true, false, ℤ, pos, negsuc}
use linux_cpp.Shm.{
  g_creater, g_user, construct, get_shm_user_create, get_shm_for_user, get_shm_helper,
}

abbrev sample_shmget : Bool → ℤ
sample_shmget true = negsuc 0
sample_shmget false = pos 7

abbrev sample_shmat : ℤ → ℤ
sample_shmat (pos shmid) = pos 4096
sample_shmat (negsuc n) = negsuc 0

-- The user that comes after a creater does not get its segment.
second_test :
    (construct sample_shmget sample_shmat
      (pos 102)
      g_user
      (construct sample_shmget sample_shmat (pos 102) g_creater false).1).0.shmid
    ≡ negsuc 0
unfolding construct get_shm_user_create get_shm_for_user get_shm_helper
second_test = refl
