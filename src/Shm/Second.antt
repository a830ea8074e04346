-- ===== src/Shm/Second.antt =====
-- Processes that make their objects after another has: the objects of 4.shm/Shm.hpp.
use linux_cpp.Common.{
  ◌≡◌, refl, ◌∙◌, ap, List, [], ◌∷◌, Bool, true, ◌||◌, not, if◌then◌else◌, ℤ, pos, negsuc, eqb, ltz,
  map, arith,
}
use linux_cpp.Shm.{
  get_shm_helper, get_shm_user_create, get_shm_for_user, attach_shm, construct, destruct, zeroed,
  run_all,
}

module _ (shmget : Bool → ℤ) (shmat : ℤ → ℤ) (key : ℤ) where
  -- Whatever the role, the constructor asks once, and attaches what it got.
  construct-shmid :
      (who : ℤ) (exists : Bool) → (construct shmget shmat key who exists).0.shmid ≡ shmget exists
  unfolding construct get_shm_user_create get_shm_for_user get_shm_helper
  construct-shmid who exists = ground arith

  construct-exists :
      (who : ℤ) (exists : Bool)
      → (construct shmget shmat key who exists).1 ≡ exists || not (ltz (shmget exists) (pos 0))
  unfolding construct get_shm_user_create get_shm_for_user get_shm_helper
  construct-exists who exists = ground arith

  construct-addrshm :
      (who : ℤ) (exists : Bool)
      → (construct shmget shmat key who exists).0.addrshm ≡ shmat (shmget exists)
  unfolding attach_shm construct
  construct-addrshm who exists = ap shmat (construct-shmid who exists)

-- The addresses are those of a failed shmat, and `Zero` writes to them.
module _ (shmget : Bool → ℤ) (shmat : ℤ → ℤ) (key : ℤ) (excl : ltz (shmget true) (pos 0) ≡ true)
    (failed : (shmid : ℤ) → ltz shmid (pos 0) ≡ true → shmat shmid ≡ negsuc 0) where
  zeroed-failed :
      (who : ℤ) (exists : Bool)
      → ltz (shmget exists) (pos 0) ≡ true
      → zeroed (construct shmget shmat key who exists).0 ≡ negsuc 0 ∷ []
  unfolding zeroed
  zeroed-failed who exists h =
      ap (λ a. if eqb a (pos 0) then [] else (a ∷ []))
        (construct-addrshm shmget shmat key who exists ∙ failed (shmget exists) h)

  destruct_kept :
      (who : ℤ)
      → destruct (construct shmget shmat key who true).0 (construct shmget shmat key who true).1
        ≡ true
  unfolding destruct
  destruct_kept who = ground (
    arith,
    construct-exists shmget shmat key who true,
    ap (λ x. ltz x (pos 0)) (construct-shmid shmget shmat key who true),
    excl,
  )

  -- Once a segment has been left behind, no process that runs later gets or removes it, whatever the
  -- roles: each writes its zeros at address -1, and the segment is still there at the end.
  pub run_all-left :
      (whos : List ℤ)
      → run_all shmget shmat key whos true ≡ (map (λ (who : ℤ). negsuc 0 ∷ []) whos, true)
  unfolding run_all construct zeroed destruct
  run_all-left [] = refl
  run_all-left (who ∷ whos) =
      (λ i. (
        zeroed-failed who true excl i ∷ (run_all shmget shmat key whos (destruct_kept who i)).0,
        (run_all shmget shmat key whos (destruct_kept who i)).1,
      ))
      ∙ ap {B = List (List ℤ) × Bool} (λ (r : List (List ℤ) × Bool). ((negsuc 0 ∷ []) ∷ r.0, r.1))
          (run_all-left whos)
