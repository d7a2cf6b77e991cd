-- ===== src/Fs/Dinode/Update.antt =====
-- iupdate writes an inode where ilock reads it, and touches no other.
use cmpt.Prelude.{
  ℕ, ◌*◌, ◌%◌, ◌≤◌, ◌≡◌, ◌≢◌, refl, ◌∙◌, sym, ap, subst, arith, true, false, ◌==◌, update,
  update-ne, update_self, Bool-cases, inl, inr, ==→eq, ==→ne, ne→==,
}
use cmpt.Disk.{Disk, half}
use cmpt.Fs.{State, SuperBlock, Inode, done, ipb, ndirect, iblock}
use cmpt.Fs.Dinode.{write_dinode, read_dinode, iupdate, load_inode}
use cmpt.Fs.Dinode.Layout.{Holds, Fits, write_dinode-Holds, write_dinode_other}

-- The disk holds inode n with these fields.
abbrev pub HoldsAt : Disk → SuperBlock → ℕ → Inode → Type 0
HoldsAt v sb n i = Holds (n % ipb) (v (iblock n sb)) i

-- Two inodes in memory have the same fields of the disk.
pub record SameFile (i j : Inode) : Type 0 where
  pub type : i.type ≡ j.type
  pub major : i.major ≡ j.major
  pub minor : i.minor ≡ j.minor
  pub nlink : i.nlink ≡ j.nlink
  pub size : i.size ≡ j.size
  pub addrs : (n : ℕ) → n ≤ ndirect → i.addrs n ≡ j.addrs n

abbrev pub updated : State → ℕ → State
updated s ip = record s {
  view = update s.view (iblock (s.icache ip).inum s.sb) (
      write_dinode ((s.icache ip).inum % ipb) (s.icache ip)
        (s.view (iblock (s.icache ip).inum s.sb)));
}

pub iupdate_runs : (ip : ℕ) (s : State) → iupdate ip s ≡ done tt (updated s ip)
unfolding iupdate
iupdate_runs ip s = refl

pub updated-HoldsAt :
    (ip : ℕ) (s : State)
    → Fits (s.icache ip)
    → HoldsAt (updated s ip).view s.sb (s.icache ip).inum (s.icache ip)
updated-HoldsAt ip s f =
    let i = s.icache ip in
    subst (λ a. Holds (i.inum % ipb) a i)
      (sym (update_self s.view (iblock i.inum s.sb) _ (iblock i.inum s.sb) refl))
      (write_dinode-Holds (i.inum % ipb) i (s.view (iblock i.inum s.sb)) f)

-- Every other inode of the disk stays.
updated_other :
    (ip : ℕ) (s : State) (n : ℕ) (i : Inode)
    → Fits (s.icache ip)
    → n ≢ (s.icache ip).inum
    → HoldsAt s.view s.sb n i
    → HoldsAt (updated s ip).view s.sb n i
updated_other ip s n i f ne old =
    let j = s.icache ip in
    elim (Bool-cases (iblock n s.sb == iblock j.inum s.sb)) [
      | inl e ↦
          let b : iblock n s.sb ≡ iblock j.inum s.sb =
            ==→eq (iblock n s.sb) (iblock j.inum s.sb) e in
          subst (λ a. Holds (n % ipb) a i)
            (sym (
              update_self s.view (iblock j.inum s.sb)
                (write_dinode (j.inum % ipb) j (s.view (iblock j.inum s.sb))) (iblock n s.sb) b))
            (write_dinode_other (j.inum % ipb) j (s.view (iblock j.inum s.sb)) f (n % ipb) i
              (omega arith) (subst (λ c. Holds (n % ipb) (s.view c) i) b old))
      | inr e ↦
          subst (λ a. Holds (n % ipb) a i)
            (sym (
              update-ne s.view (iblock j.inum s.sb)
                (write_dinode (j.inum % ipb) j (s.view (iblock j.inum s.sb))) (iblock n s.sb)
                (==→ne (iblock n s.sb) (iblock j.inum s.sb) e)))
            old
    ]

-- The inode in slot ip once it is read from the disk.
abbrev pub loaded : State → ℕ → State
loaded s ip = record s {
  icache =
      update s.icache ip
        (record (read_dinode ((s.icache ip).inum % ipb) (s.view (iblock (s.icache ip).inum s.sb))
          (s.icache ip)) { valid = true });
}

-- ilock on an entry that is not valid reads the fields that the disk holds, and panics on the type 0.
pub load_inode-HoldsAt :
    (ip : ℕ) (s : State) (i : Inode)
    → (s.icache ip).valid ≡ false
    → HoldsAt s.view s.sb (s.icache ip).inum i
    → i.type ≢ 0
    → (load_inode ip s ≡ done tt (loaded s ip))
      × SameFile ((loaded s ip).icache ip) i
      × (((loaded s ip).icache ip).valid ≡ true)
unfolding load_inode read_dinode
load_inode-HoldsAt ip s i invalid h ne =
    let j = s.icache ip in
    let a = s.view (iblock j.inum s.sb) in
    let k = j.inum % ipb in
    let self : (loaded s ip).icache ip ≡ record (read_dinode k a j) { valid = true } =
      update_self s.icache ip (record (read_dinode k a j) { valid = true }) ip refl in
    (
      rw (invalid, ne→== (half a (k * 32)) 0 (λ z. ne (sym h.type ∙ z))) refl,
      record {
        type = ap (λ (x : Inode). x.type) self ∙ h.type;
        major = ap (λ (x : Inode). x.major) self ∙ h.major;
        minor = ap (λ (x : Inode). x.minor) self ∙ h.minor;
        nlink = ap (λ (x : Inode). x.nlink) self ∙ h.nlink;
        size = ap (λ (x : Inode). x.size) self ∙ h.size;
        addrs = λ n le. ap (λ (x : Inode). x.addrs n) self ∙ h.addrs n le;
      },
      ap (λ (x : Inode). x.valid) self,
    )

-- The fields that iupdate writes are those that ilock reads for the same inode into an entry that
-- is not valid, and every other inode of the disk keeps its fields.
pub load_inode-iupdate :
    (ip jp : ℕ) (s : State)
    → Fits (s.icache ip)
    → (s.icache ip).type ≢ 0
    → (s.icache jp).inum ≡ (s.icache ip).inum
    → (s.icache jp).valid ≡ false
    → (t : State) × (iupdate ip s ≡ done tt t)
      × ((u : State) × (load_inode jp t ≡ done tt u)
          × SameFile (u.icache jp) (s.icache ip)
          × ((u.icache jp).valid ≡ true))
      × ((n : ℕ) (i : Inode)
          → n ≢ (s.icache ip).inum
          → HoldsAt s.view s.sb n i
          → HoldsAt t.view t.sb n i)
load_inode-iupdate ip jp s f live same invalid =
    let held =
      subst (λ n. HoldsAt (updated s ip).view s.sb n (s.icache ip)) (sym same)
        (updated-HoldsAt ip s f) in
    let (runs, fields, now) =
      load_inode-HoldsAt jp (updated s ip) (s.icache ip) invalid held live in
    (
      updated s ip,
      iupdate_runs ip s,
      (loaded (updated s ip) jp, runs, fields, now),
      λ n i ne old. updated_other ip s n i f ne old,
    )
