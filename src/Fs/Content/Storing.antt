-- ===== src/Fs/Content/Storing.antt =====
-- writei puts the bytes into the file, and a larger size into the inode.
use cmpt.Prelude.{
  ℕ, ◌+◌, ◌-◌, ◌*◌, ◌/◌, ◌%◌, ◌^◌, ◌<◌, ◌≤◌, ◌≡◌, ◌≢◌, refl, ◌∙◌, sym, ap, ap₂, subst, arith, true,
  none, some, ltb, leb, ◌&&◌, ◌||◌, if◌then◌else◌, update, update-ne, update_self, Bool-cases, inl,
  inr, ◌⊎◌, ne→==, le→ltb, lt→ltb, ◌==◌, ==→eq, ==→ne, tests,
}
use cmpt.Disk.{Block, Disk}
use cmpt.Fs.{State, Inode, SuperBlock, done, bsize, ndirect, maxfile, t_dev, ipb, iblock, and_then}
use cmpt.Fs.Rules.{Ends, ends, bind, mono}
use cmpt.Fs.Dinode.{write_dinode}
use cmpt.Fs.Dinode.Layout.{Fits, write_dinode-lt}
use cmpt.Fs.Dinode.Update.{HoldsAt, updated, updated-HoldsAt, iupdate_runs}
use cmpt.Fs.Content.{Devices, slice, blit, readi, store_size, writei}
use cmpt.Fs.Content.Data.{IsData, IsOpen, iblock-IsOpen, size-lt}
use cmpt.Fs.Content.Laid.{LaidBy, Outside, bytes_at, bytes_at-kept, LaidBy-write}
use cmpt.Fs.Content.Growth.{block_of, LaidAt}
use cmpt.Fs.Content.Mapping.{Laid}
use cmpt.Fs.Content.Reading.{
  content, Covers, past_end, not_past_end, cut_at, slice-cong, readi-slice,
}
use cmpt.Fs.Content.Writing.{Changed, Changed-Laid, block_of-write}
use cmpt.Fs.Content.Rounds.{written, Stopped, write_from-written}

-- The most that filewrite passes to writei, so that a transaction has room for the blocks:
-- ((LOGSIZE-1-1-2) / 2) * 512
abbrev pub max_write : ℕ
max_write = 6656

-- The file of inode ip has the content g, the size z and the n bytes from off on in blocks of its
-- own; its other fields, the other inodes and the data blocks outside the file are as before. A
-- larger size is on the disk, with the addresses.
pub record Wrote (ip off n : ℕ) (g : ℕ → ℕ) (z : ℕ) (s t : State) : Type 0 where
  pub sb_kept : t.sb ≡ s.sb
  pub others : (j : ℕ) → j ≢ ip → t.icache j ≡ s.icache j
  pub fields :
      record (t.icache ip) { addrs = λ _. 0 } ≡ record (s.icache ip) { addrs = λ _. 0; size = z }
  pub laid : Laid t ip
  pub stored : (s.icache ip).size < z → HoldsAt t.view t.sb (t.icache ip).inum (t.icache ip)
  pub covers : Covers ip off n t
  pub bytes : (o : ℕ) → o < maxfile * bsize → content t ip o ≡ g o
  pub outside :
      (d : ℕ)
      → Outside s.view s.sb (block_of s.view (s.icache ip).addrs) ((s.icache ip).addrs ndirect) d
      → t.view d ≡ s.view d

-- What a write to block y does not change for the file with these addresses
record Beside (v w : Disk) (sb : SuperBlock) (old addrs : ℕ → ℕ) : Type 0 where
  laid : LaidAt w sb addrs
  blocks : block_of w addrs ≡ block_of v old
  bytes :
      (o : ℕ)
      → o < maxfile * bsize
      → bytes_at w (block_of w addrs) o ≡ bytes_at v (block_of v old) o

write_elsewhere :
    (v : Disk) (sb : SuperBlock) (addrs : ℕ → ℕ) (y : ℕ) (a : Block)
    → LaidAt v sb addrs
    → IsOpen sb y
    → ((d : ℕ) → IsData v sb d → d ≢ y)
    → ((o : ℕ) → a o < 256)
    → Beside v (update v y a) sb addrs addrs
write_elsewhere v sb addrs y a l writable apart bytes = record {
  laid =
      subst (λ f. LaidBy (update v y a) sb f (addrs ndirect)) (sym kept)
        (LaidBy-write a l writable bytes);
  blocks = kept;
  bytes = λ o lo.
      ap (λ (f : ℕ → ℕ). bytes_at (update v y a) f o) kept
      ∙ bytes_at-kept v (update v y a) (block_of v addrs) o (λ nz.
        update-ne v y a (block_of v addrs (o / bsize))
          (apart (block_of v addrs (o / bsize)) (l.data_block (o / bsize) (omega arith) nz)));
}
  where
    kept : block_of (update v y a) addrs ≡ block_of v addrs
    kept = block_of-write v addrs y a (λ nz. apart (addrs ndirect) (l.index_block nz))

abbrev sized : State → ℕ → ℕ → State
sized t ip z = record t { icache = update t.icache ip (record (t.icache ip) { size = z }) }

-- The addresses of a file are words.
addrs-lt :
    (v : Disk) (sb : SuperBlock) (addrs : ℕ → ℕ)
    → LaidAt v sb addrs
    → (j : ℕ) → j ≤ ndirect
    → addrs j < 2 ^ 32
addrs-lt v sb addrs l j le = elim (Bool-cases (addrs j == 0)) [
  | inl z ↦ omega (arith, ==→eq (addrs j) 0 z)
  | inr nz ↦
      let ne = ==→ne (addrs j) 0 nz in
      elim (Bool-cases (ltb j ndirect)) [
        | inl e ↦
            let at : block_of v addrs j ≡ addrs j = rw e refl in
            let d = l.data_block j (omega tests) (λ z. ne (sym at ∙ z)) in
            omega (arith, at, d.inside, size-lt l.formatted)
        | inr e ↦
            let q : j ≡ ndirect = omega tests in
            let d = l.index_block (λ z. ne (ap addrs q ∙ z)) in
            omega (arith, ap addrs q, d.inside, size-lt l.formatted)
      ]
]

-- ip->size = z, and iupdate
resized :
    {s t : State} {ip off n : ℕ} {g : ℕ → ℕ} (z : ℕ)
    → (s.icache ip).inum < s.sb.ninodes
    → Fits (s.icache ip)
    → z < 2 ^ 32
    → Changed ip g s t
    → Covers ip off n t
    → Wrote ip off n g z s (updated (sized t ip z) ip)
resized {s} {t} {ip} {g = g} z known fits lz c there = record {
  sb_kept = c.sb_kept;
  others = λ j ne. update-ne t.icache ip _ j ne ∙ c.others j ne;
  fields =
      ap (λ (i : Inode). record i { addrs = λ _. 0 }) new
      ∙ ap (λ (i : Inode). record i { size = z }) c.fields;
  laid = beside.laid;
  stored = λ _. updated-HoldsAt ip (sized t ip z) (subst Fits (sym new) sized-Fits);
  covers = λ o ge lo q. there o ge lo (sym (ap (λ (f : ℕ → ℕ). f (o / bsize)) beside.blocks) ∙ q);
  bytes = λ o lo. beside.bytes o lo ∙ c.bytes o lo;
  outside = λ d o.
      let (o', e) = c.outside d o in
      update-ne t.view y a d (apart d (subst (λ sb. IsData t.view sb d) (sym c.sb_kept) o'.is_data))
      ∙ e;
}
  where
    new : (sized t ip z).icache ip ≡ record (t.icache ip) { size = z }
    new = update_self t.icache ip (record (t.icache ip) { size = z }) ip refl

    before : Laid t ip
    before = Changed-Laid c

    sized-Fits : Fits (record (t.icache ip) { size = z })
    sized-Fits = record {
      type = omega (arith, ap (λ (i : Inode). i.type) c.fields, fits.type);
      major = omega (arith, ap (λ (i : Inode). i.major) c.fields, fits.major);
      minor = omega (arith, ap (λ (i : Inode). i.minor) c.fields, fits.minor);
      nlink = omega (arith, ap (λ (i : Inode). i.nlink) c.fields, fits.nlink);
      size = lz;
      addrs = addrs-lt t.view t.sb (t.icache ip).addrs before;
    }

    num : ℕ
    num = ((sized t ip z).icache ip).inum

    y : ℕ
    y = iblock num t.sb

    a : Block
    a = write_dinode (num % ipb) ((sized t ip z).icache ip) (t.view y)

    same_inum : num ≡ (s.icache ip).inum
    same_inum = ap (λ (i : Inode). i.inum) new ∙ ap (λ (i : Inode). i.inum) c.fields

    inside : num < t.sb.ninodes
    inside = omega (arith, same_inum, known, ap (λ (x : SuperBlock). x.ninodes) c.sb_kept)

    apart : (d : ℕ) → IsData t.view t.sb d → d ≢ y
    apart d i = i.no_inode num inside

    beside :
        Beside t.view (update t.view y a) t.sb (t.icache ip).addrs ((sized t ip z).icache ip).addrs
    beside =
        subst (Beside t.view (update t.view y a) t.sb (t.icache ip).addrs)
          (sym (ap (λ (i : Inode). i.addrs) new))
          (write_elsewhere t.view t.sb (t.icache ip).addrs y a before
            (iblock-IsOpen num before.formatted inside) apart
            (write_dinode-lt (num % ipb) ((sized t ip z).icache ip) (t.view y)
              (before.formatted.mapped.bytes y)))

Changed-Wrote :
    {s t : State} {ip off n : ℕ} {g : ℕ → ℕ}
    → Changed ip g s t
    → Covers ip off n t
    → Wrote ip off n g (s.icache ip).size s t
Changed-Wrote c there = record {
  sb_kept = c.sb_kept;
  others = c.others;
  fields = c.fields;
  laid = Changed-Laid c;
  stored = λ lt. absurd (omega (arith, lt));
  covers = there;
  bytes = c.bytes;
  outside = λ d o. (c.outside d o).1;
}

-- The size of the file after a write of n bytes at off
abbrev pub size_after : ℕ → ℕ → ℕ → ℕ
size_after size off n = if ltb 0 n && ltb size (off + n) then off + n else size

store_size-Wrote :
    {s t : State} {ip : ℕ} {g : ℕ → ℕ} (n last off : ℕ)
    → (s.icache ip).inum < s.sb.ninodes
    → Fits (s.icache ip)
    → off + n ≤ maxfile * bsize
    → Changed ip g s t
    → last ≡ off + n
    → Covers ip off n t
    → Ends
        (λ r u. (r ≡ some n) × Wrote ip off n g (size_after (s.icache ip).size off n) s u)
        (λ u. ⊥)
        (and_then (store_size ip n last t) (λ _. done (some n)))
unfolding store_size
store_size-Wrote {s} {t} {ip} {g} n last off known fits fit c e there =
    elim (Bool-cases (ltb 0 n && ltb (t.icache ip).size last)) [
      | inl grew ↦
          let z : size_after (s.icache ip).size off n ≡ last =
            ap (λ b. if b then off + n else (s.icache ip).size) (same ∙ grew) ∙ sym e in
          rw (grew, iupdate_runs ip (sized t ip last))
            (ends (
              refl,
              subst (λ k. Wrote ip off n g k s (updated (sized t ip last) ip)) (sym z)
                  (resized last known fits (omega (arith, e, fit)) c there),
            ))
      | inr kept ↦
          let z : size_after (s.icache ip).size off n ≡ (s.icache ip).size =
            ap (λ b. if b then off + n else (s.icache ip).size) (same ∙ kept) in
          rw kept (ends (refl, subst (λ k. Wrote ip off n g k s t) (sym z) (Changed-Wrote c there)))
    ]
  where
    same : (ltb 0 n && ltb (s.icache ip).size (off + n)) ≡ (ltb 0 n && ltb (t.icache ip).size last)
    same = ap₂ (λ k l. ltb 0 n && ltb k l) (sym (ap (λ (i : Inode). i.size) c.fields)) (sym e)

-- writei of n bytes of src, no more than filewrite passes, to an inode that is no device, at an
-- offset within the file: the file's bytes from off on are those of src, in blocks that the file
-- now has, and all others as before; its size is the larger of the old one and off + n; a size
-- that grew is written to the inode's place on the disk, with all fields that the inode has in
-- memory; and neither its other fields nor the other inodes in memory and data blocks outside the
-- file change. Where balloc finds no block, it panics with a part of src written and every block
-- in use. For an offset past the end, where off + n wraps around, and past the largest file it
-- returns -1 without a change.
pub writei-Wrote :
    (devsw : Devices) (s : State) (ip : ℕ) (src : ℕ → ℕ) (off n : ℕ)
    → Laid s ip
    → (s.icache ip).type ≢ t_dev
    → (s.icache ip).inum < s.sb.ninodes
    → Fits (s.icache ip)
    → ((j : ℕ) → src j < 256)
    → off < 2 ^ 32
    → n ≤ max_write
    → (((s.icache ip).size < off) ⊎ (2 ^ 32 ≤ off + n) → writei devsw ip src off n s ≡ done none s)
      × (maxfile * bsize < off + n → writei devsw ip src off n s ≡ done none s)
      × (off ≤ (s.icache ip).size
          → off + n ≤ maxfile * bsize
          → Ends
              (λ r t.
                (r ≡ some n)
                × Wrote ip off n
                    (written s ip off n src 0)
                    (size_after (s.icache ip).size off n)
                    s
                    t)
              (Stopped ip src s off n 0)
              (writei devsw ip src off n s))
unfolding writei
writei-Wrote devsw s ip src off n l file known fits bytes lo small = (
  λ out.
      rw
        (
          writei,
          ne→== (s.icache ip).type t_dev file,
          past_end (s.icache ip).size off n lo (omega (arith, small)) out,
        )
        refl,
  λ big. elim (Bool-cases (ltb (s.icache ip).size off || ltb ((off + n) % 2 ^ 32) off)) [
    | inl e ↦ rw (writei, ne→== (s.icache ip).type t_dev file, e) refl
    | inr e ↦
        rw (writei, ne→== (s.icache ip).type t_dev file, e, lt→ltb (maxfile * bsize) (off + n) big)
          refl
  ],
  λ le fit.
      rw
        (
          writei,
          ne→== (s.icache ip).type t_dev file,
          not_past_end (s.icache ip).size off n le (omega arith),
          le→ltb (maxfile * bsize) (off + n) fit,
        )
        (bind (write_from-written ip src bytes n n 0 off s l (omega arith) fit) (λ last t p.
          mono (store_size-Wrote n last off known fits fit p.0 p.1 p.2) (λ r u q. q)
            (λ u q. absurd q))),
)

blit_inside :
    (c : ℕ → ℕ) (off n : ℕ) (src : ℕ → ℕ) (i : ℕ)
    → i < n
    → blit c off n src 0 (off + i) ≡ src (0 + i)
blit_inside c off n src i lt =
    let e : (leb off (off + i) && ltb (off + i) (off + n)) ≡ true = ground (arith, lt) in
    let k : off + i - off ≡ i = omega arith in rw (e, k) refl

-- Where writei has written n bytes at off, no more than filewrite passes, readi of n bytes at off
-- returns the same bytes, without a change; balloc's panic is writei's only other end.
pub readi-writei :
    (devsw : Devices) (s : State) (ip : ℕ) (src : ℕ → ℕ) (off n : ℕ)
    → Laid s ip
    → (s.icache ip).type ≢ t_dev
    → (s.icache ip).inum < s.sb.ninodes
    → Fits (s.icache ip)
    → ((j : ℕ) → src j < 256)
    → n ≤ max_write
    → (s.icache ip).size ≤ maxfile * bsize
    → off ≤ (s.icache ip).size
    → off + n ≤ maxfile * bsize
    → Ends
        (λ r t. (r ≡ some n) × (readi devsw ip off n t ≡ done (some (slice src 0 n)) t))
        (Stopped ip src s off n 0)
        (writei devsw ip src off n s)
readi-writei devsw s ip src off n l file known fits bytes little small le fit =
    mono ((writei-Wrote devsw s ip src off n l file known fits bytes (omega arith) little).2 le fit)
      (λ r t p. (p.0, again t p.1)) (λ u q. q)
  where
    again :
        (t : State)
        → Wrote ip off n (written s ip off n src 0) (size_after (s.icache ip).size off n) s t
        → readi devsw ip off n t ≡ done (some (slice src 0 n)) t
    again t w =
        let size : (t.icache ip).size ≡ size_after (s.icache ip).size off n =
          ap (λ (i : Inode). i.size) w.fields in
        let type : (t.icache ip).type ≡ (s.icache ip).type = ap (λ (i : Inode). i.type) w.fields in
        let bound : size_after (s.icache ip).size off n ≤ maxfile * bsize =
          ground (arith, small, fit) in
        let reach : off ≤ size_after (s.icache ip).size off n = ground (arith, le) in
        let cut : cut_at (size_after (s.icache ip).size off n) off n ≡ n = ground arith in
        let whole : cut_at (t.icache ip).size off n ≡ n = ap (λ z. cut_at z off n) size ∙ cut in
        (readi-slice devsw t ip off n (λ z. file (sym type ∙ z)) (omega (arith, size, bound))
            (subst (λ k. Covers ip off k t) (sym whole) w.covers) (omega arith) (omega arith)).1
          (omega (arith, size, reach)) (omega arith)
        ∙ ap (λ xs. done (some xs) t)
            (ap (slice (content t ip) off) whole
              ∙ slice-cong (content t ip) src off 0 n (λ i li.
                w.bytes (off + i) (omega arith) ∙ blit_inside (content s ip) off n src i li))
