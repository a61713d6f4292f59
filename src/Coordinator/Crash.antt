-- ===== src/Coordinator/Crash.antt =====
-- A crash during `_persist`: its writes in their order, of which a crash leaves the first ones.
use interlatent.Base.{ℕ, zero, suc, List, [], ◌∷◌, take, ◌≡◌, refl, ◌∙◌, ◌⊎◌, inl, inr}
use interlatent.Coordinator.Data.{Coordinator, Document, File, document, unreadable, missing}
use interlatent.Coordinator.Persistence.{dump, persist}

-- The state file and the temporary file beside it, which an earlier crash may have left.
pub record Disk : Type 0 where
  pub tmp : File
  pub target : File

-- `tmp.write_text` opens the file and then has written it, and `os.replace` renames it.
pub data DiskWrite : Type 0 where
  opens_tmp : DiskWrite
  fills_tmp : (doc : Document) → DiskWrite
  replaces_target : DiskWrite

abbrev pub write_disk : Disk → DiskWrite → Disk
write_disk d opens_tmp = record d { tmp = unreadable }
write_disk d (fills_tmp doc) = record d { tmp = document doc }
write_disk d replaces_target = record { tmp = missing; target = d.tmp }

abbrev pub write_in_order : Disk → List DiskWrite → Disk
write_in_order d [] = d
write_in_order d (w ∷ ws) = write_in_order (write_disk d w) ws

-- `_persist`, for the document of the state.
unfoldable pub persist_writes : Document → List DiskWrite
persist_writes doc = opens_tmp ∷ fills_tmp doc ∷ replaces_target ∷ []

-- Several attempts to persist, each of which stops after some of its writes.
unfoldable pub crash_all : Disk → List (Document × ℕ) → Disk
unfolding persist_writes
crash_all d [] = d
crash_all d ((doc, n) ∷ attempts) =
    crash_all (write_in_order d (take n (persist_writes doc))) attempts

-- The file is the document of one of the attempts.
abbrev pub IsOneOf : File → List (Document × ℕ) → Type 0
IsOneOf f [] = ⊥
IsOneOf f ((doc, n) ∷ attempts) = (f ≡ document doc) ⊎ IsOneOf f attempts

one_attempt :
    (d : Disk) (doc : Document) (n : ℕ)
    → ((write_in_order d (take n (persist_writes doc))).target ≡ d.target)
      ⊎ ((write_in_order d (take n (persist_writes doc))).target ≡ document doc)
unfolding persist_writes
one_attempt d doc zero = inl refl
one_attempt d doc (suc zero) = inl refl
one_attempt d doc (suc (suc zero)) = inl refl
one_attempt d doc (suc (suc (suc zero))) = inr refl
one_attempt d doc (suc (suc (suc (suc n)))) = inr refl

crash_all-target_from :
    (d : Disk) (attempts : List (Document × ℕ))
    → ((crash_all d attempts).target ≡ d.target) ⊎ IsOneOf (crash_all d attempts).target attempts
unfolding crash_all
crash_all-target_from d [] = inl refl
crash_all-target_from d ((doc, n) ∷ attempts) =
    elim (crash_all-target_from (write_in_order d (take n (persist_writes doc))) attempts) [
      | inr later ↦ inr (inr later)
      | inl same ↦ elim (one_attempt d doc n) [
        | inl kept ↦ inl (same ∙ kept)
        | inr new ↦ inr (inl (same ∙ new))
      ]
    ]

-- Whatever the disk held, and after whichever of its writes each attempt to persist was cut off, the
-- state file is the one from before or the whole document of one of the attempts; and an attempt
-- that was not cut off leaves the file that `persist` leaves.
pub crash_all-target :
    (d : Disk) (attempts : List (Document × ℕ)) (c : Coordinator)
    → (((crash_all d attempts).target ≡ d.target) ⊎ IsOneOf (crash_all d attempts).target attempts)
      × ((write_in_order (crash_all d attempts) (persist_writes (dump c.state))).target
          ≡ (persist c).file)
unfolding persist_writes persist
crash_all-target d attempts c = (crash_all-target_from d attempts, refl)
