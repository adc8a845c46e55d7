-- ===== src/Files.antt =====
-- Package os as the caches use it: the operations are parameters, and each may fail. A disk holds
-- regular files only, besides directories.
pub mod Memory
use gotst.Prelude.{
  ◌⊎◌, inr, ap, inl, Bool-cases, ℕ, Bool, true, false, Option, none, some, Text, text_eq, ◌==◌, [],
  ◌≡◌, refl, length, if◌then◌else◌, arith,
}
use gotst.Go.Strings.{has_prefix}
use gotst.Go.Paths.{after_last_slash}

-- What `os.ReadFile` returns: no such file, another error, or the contents.
pub data Read : Type 0 where
  missing unreadable : Read
  contents : Text → Read

-- `os.FileInfo`
pub record FileInfo : Type 0 where
  pub regular : Bool
  pub executable : Bool
  pub size : ℕ
  pub mod_time : ℕ

-- The operations on the disks `D`; an operation that changes the disk says whether it succeeded.
pub record Os (D : Type 0) : Type 0 where
  pub read_file : D → Text → Read
  pub stat : D → Text → Option FileInfo
  pub mkdir_all : D → Text → D × Bool
  pub create_temp : D → Text → Text → D × Option Text
  pub chmod : D → Text → ℕ → D × Bool
  pub write : D → Text → Text → D × Bool
  pub close : D → Text → D × Bool
  pub rename : D → Text → Text → D × Bool
  pub remove : D → Text → D × Bool

-- What the documentation of package os says of them.
pub record OsLaws {D : Type 0} (os : Os D) : Type 0 where
  pub stat_reads :
      (d : D) (p s : Text) (i : FileInfo)
      → os.read_file d p ≡ contents s
      → os.stat d p ≡ some i
      → (i.regular ≡ true) × (i.size ≡ length s)
  pub stat_finds :
      (d : D) (p s : Text) → os.read_file d p ≡ contents s → (i : FileInfo) × (os.stat d p ≡ some i)
  pub mkdir_all_keeps :
      (d : D) (p q : Text) → os.read_file (os.mkdir_all d p).0 q ≡ os.read_file d q
  pub create_temp_makes :
      (d : D) (dir start t : Text)
      → (os.create_temp d dir start).1 ≡ some t
      → (os.read_file (os.create_temp d dir start).0 t ≡ contents [])
        × (has_prefix (after_last_slash t) start ≡ true)
  pub create_temp_keeps :
      (d : D) (dir start q : Text)
      → has_prefix (after_last_slash q) start ≡ false
      → os.read_file (os.create_temp d dir start).0 q ≡ os.read_file d q
  pub chmod_keeps :
      (d : D) (p : Text) (mode : ℕ) (q : Text)
      → os.read_file (os.chmod d p mode).0 q ≡ os.read_file d q
  pub write_writes :
      (d : D) (p s : Text)
      → os.read_file d p ≡ contents []
      → (os.write d p s).1 ≡ true
      → os.read_file (os.write d p s).0 p ≡ contents s
  pub write_keeps :
      (d : D) (p s q : Text)
      → (p == q) ≡ false
      → os.read_file (os.write d p s).0 q ≡ os.read_file d q
  pub close_keeps : (d : D) (p q : Text) → os.read_file (os.close d p).0 q ≡ os.read_file d q
  pub rename_moves :
      (d : D) (p q : Text)
      → (os.rename d p q).1 ≡ true
      → os.read_file (os.rename d p q).0 q ≡ os.read_file d p
  pub rename_keeps :
      (d : D) (p q r : Text)
      → (p == r) ≡ false
      → (q == r) ≡ false
      → os.read_file (os.rename d p q).0 r ≡ os.read_file d r
  pub rename_fails :
      (d : D) (p q r : Text)
      → (os.rename d p q).1 ≡ false
      → os.read_file (os.rename d p q).0 r ≡ os.read_file d r
  pub remove_removes :
      (d : D) (p : Text) → (os.remove d p).1 ≡ true → os.read_file (os.remove d p).0 p ≡ missing
  pub remove_fails :
      (d : D) (p q : Text)
      → (os.remove d p).1 ≡ false
      → os.read_file (os.remove d p).0 q ≡ os.read_file d q
  pub remove_keeps :
      (d : D) (p q : Text) → (p == q) ≡ false → os.read_file (os.remove d p).0 q ≡ os.read_file d q

-- A sequence of operations on a disk, which ends at the first that fails.
abbrev pub Disk : Type 0 → Type 0 → Type 0
Disk D A = D → D × Option A

abbrev pub continue : {D A B : Type 0} → D × Option A → (A → Disk D B) → D × Option B
continue (d, none) k = (d, none)
continue (d, some a) k = k a d

infixl 5 ◌>>=◌ ◌>>◌
abbrev pub ◌>>=◌ : {D A B : Type 0} → Disk D A → (A → Disk D B) → Disk D B
◌>>=◌ m k d = continue (m d) k

abbrev pub ◌>>◌ : {D A B : Type 0} → Disk D A → Disk D B → Disk D B
m >> k = m >>= λ _. k

abbrev pub checked : {D : Type 0} → (D → D × Bool) → Disk D (Unit {0})
checked step d = ((step d).0, if (step d).1 then some tt else none)

pub continue-eq-some :
    {D A B : Type 0} (r : D × Option A) (k : A → Disk D B) {b : B}
    → (continue r k).1 ≡ some b
    → (a : A) × (r.1 ≡ some a) × (continue r k ≡ k a r.0) × ((k a r.0).1 ≡ some b)
continue-eq-some (e, none) k h = ground arith
continue-eq-some (e, some a) k h = (a, refl, refl, h)

pub >>=-eq-some :
    {D A B : Type 0} (m : Disk D A) (k : A → Disk D B) (d : D) {b : B}
    → ((m >>= k) d).1 ≡ some b
    → (a : A) × ((m d).1 ≡ some a) × ((m >>= k) d ≡ k a (m d).0) × ((k a (m d).0).1 ≡ some b)
>>=-eq-some m k d h = continue-eq-some (m d) k h

-- The disk after a sequence satisfies `P` if it does where the sequence may end.
pub continue-state :
    {D A B : Type 0} (P : D → Type 0) (r : D × Option A) (k : A → Disk D B)
    → (r.1 ≡ none → P r.0)
    → ((a : A) → r.1 ≡ some a → P (k a r.0).0)
    → P (continue r k).0
continue-state P (e, none) k stop go = stop refl
continue-state P (e, some a) k stop go = go a refl

-- A path whose last element has the start of a temporary name is no path without it.
pub temp-other :
    (start p q : Text)
    → has_prefix (after_last_slash p) start ≡ true
    → has_prefix (after_last_slash q) start ≡ false
    → (p == q) ≡ false
temp-other start p q hp hq = elim (Bool-cases (p == q)) [
  | inl e ↦
      let same : p ≡ q = (text_eq.beq_iff p q).0 e in
      ground (arith, ap (λ r. has_prefix (after_last_slash r) start) same)
  | inr e ↦ e
]

pub Read-kinds : (r : Read) → ((r ≡ missing) ⊎ (r ≡ unreadable)) ⊎ ((s : Text) × (r ≡ contents s))
Read-kinds missing = inl (inl refl)
Read-kinds unreadable = inl (inr refl)
Read-kinds (contents s) = inr (s, refl)

pub contents-injective : (s t : Text) → contents s ≡ contents t → s ≡ t
contents-injective s t h = ground arith
