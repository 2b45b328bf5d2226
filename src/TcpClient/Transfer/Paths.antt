-- ===== src/TcpClient/Transfer/Paths.antt =====
-- The name that a download gets.
use qt_linux_im_project.Base.{
  ℕ, zero, suc, ◌+◌, ◌≤◌, ◌<◌, ◌≡◌, refl, true, false, Bytes, arith, Bool-cases, inl, inr,
}
use qt_linux_im_project.TcpClient.{Qt, Disk}
use qt_linux_im_project.TcpClient.Transfer.{base_dir, numbered, find_free, build_download_path}

-- `path` has the first number from `index` on that gives a free name, and that number is at most
-- `free`.
pub record FirstFree (qt : Qt) (disk : Disk) (name : Bytes) (index free : ℕ) (path : Bytes)
    : Type 0 where
  pub number : ℕ
  pub from : index ≤ number
  pub below : number ≤ free
  pub same : path ≡ numbered qt disk name number
  pub free_name : disk.exists path ≡ false
  pub taken_before : (j : ℕ) → index ≤ j → j < number → disk.exists (numbered qt disk name j) ≡ true

find_free-FirstFree :
    (qt : Qt) (disk : Disk) (name : Bytes) (left index free : ℕ)
    → index ≤ free
    → free ≤ index + left
    → disk.exists (numbered qt disk name free) ≡ false
    → FirstFree qt disk name index free (find_free qt disk name left index)
unfolding find_free
find_free-FirstFree qt disk name zero index free h b e =
    let at : free ≡ index = omega arith in
    record {
      number = index;
      from = omega arith;
      below = h;
      same = refl;
      free_name = rw⁻¹ at e;
      taken_before = λ j p q. absurd (omega arith);
    }
find_free-FirstFree qt disk name (suc left) index free h b e =
    elim (Bool-cases (disk.exists (numbered qt disk name index))) [
      | inr f ↦
          rw (f, find_free)
            (record {
              number = index;
              from = omega arith;
              below = h;
              same = refl;
              free_name = f;
              taken_before = λ j p q. absurd (omega arith);
            })
      | inl t ↦
          let later =
            find_free-FirstFree qt disk name left (index + 1) free (ground arith) (omega arith) e in
          rw (t, find_free)
            (record {
              number = later.number;
              from = let p = later.from in omega arith;
              below = later.below;
              same = later.same;
              free_name = later.free_name;
              taken_before = λ j p q. ground (arith, later.taken_before j);
            })
    ]

-- Where some number from 1 to one more than the count of the taken names gives a free name, the
-- path for a download is one that no file has.
pub build_download_path-free :
    (qt : Qt) (disk : Disk) (name : Bytes) (free : ℕ)
    → 1 ≤ free
    → free ≤ disk.taken + 1
    → disk.exists (numbered qt disk name free) ≡ false
    → disk.exists (build_download_path qt disk name) ≡ false
unfolding build_download_path
build_download_path-free qt disk name free h b e =
    elim (Bool-cases (disk.exists (qt.file_path (base_dir disk) name))) [
      | inr f ↦ ground arith
      | inl t ↦
          rw (t, build_download_path)
            (find_free-FirstFree qt disk name disk.taken 1 free h (omega arith) e).free_name
    ]

-- Where the name itself is taken and some number from 1 to one more than the count of the taken
-- names gives a free one, the path for a download has the first number that does.
pub build_download_path-FirstFree :
    (qt : Qt) (disk : Disk) (name : Bytes) (free : ℕ)
    → disk.exists (qt.file_path (base_dir disk) name) ≡ true
    → 1 ≤ free
    → free ≤ disk.taken + 1
    → disk.exists (numbered qt disk name free) ≡ false
    → FirstFree qt disk name 1 free (build_download_path qt disk name)
unfolding build_download_path
build_download_path-FirstFree qt disk name free t h b e =
    rw (t, build_download_path)
      (find_free-FirstFree qt disk name disk.taken 1 free h (omega arith) e)
