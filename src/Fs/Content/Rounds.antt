-- ===== src/Fs/Content/Rounds.antt =====
-- The rounds of writei's loop together.
use cmpt.Prelude.{
  ℕ, zero, suc, ◌+◌, ◌-◌, ◌*◌, ◌/◌, ◌%◌, ◌<◌, ◌≤◌, ◌≡◌, refl, ◌∙◌, sym, ap, subst, arith, false,
  ◌==◌, ltb, leb, ◌&&◌, if◌then◌else◌, update, Bool-cases, inl, inr, ==→eq, ==→ne, ne→==, ◌≢◌,
  ltb→lt, ltb→le, tests,
}
use cmpt.Disk.{Block}
use cmpt.Fs.{State, bsize, maxfile}
use cmpt.Fs.Rules.{Ends, ends, bind, mono}
use cmpt.Fs.Bitmap.Alloc.{UsedBelow}
use cmpt.Fs.Content.{chunk, blit, write_from}
use cmpt.Fs.Content.Growth.{block_of}
use cmpt.Fs.Content.Mapping.{Laid, Extends-refl, Extends-Laid, Got, bmap-Got}
use cmpt.Fs.Content.Reading.{content, Covers, Chunk, chunk-Chunk}
use cmpt.Fs.Content.Writing.{
  Changed, Changed-Laid, Changed-cong, Changed-trans, Extends-Changed, write_block, blit_round,
  blit_join,
}

-- The file of inode ip once `left` bytes of src, from tot on, are put to off
abbrev pub written : State → ℕ → ℕ → ℕ → (ℕ → ℕ) → ℕ → ℕ → ℕ
written s ip off left src tot = blit (content s ip) off left src tot

blit_none : (c : ℕ → ℕ) (off : ℕ) (src : ℕ → ℕ) (tot o : ℕ) → c o ≡ blit c off 0 src tot o
blit_none c off src tot o =
    let e : (leb off o && ltb o (off + 0)) ≡ false = ground arith in rw e refl

blit-cong :
    (c c' : ℕ → ℕ) (off m : ℕ) (src : ℕ → ℕ) (tot o : ℕ)
    → c o ≡ c' o
    → blit c off m src tot o ≡ blit c' off m src tot o
blit-cong c c' off m src tot o e =
    ap (λ x. if leb off o && ltb o (off + m) then src (tot + (o - off)) else x) e

blit-lt :
    (c : ℕ → ℕ) (off m : ℕ) (src : ℕ → ℕ) (tot o : ℕ)
    → ((j : ℕ) → c j < 256)
    → ((j : ℕ) → src j < 256)
    → blit c off m src tot o < 256
blit-lt c off m src tot o cs ss = ground (arith, cs o, ss (tot + (o - off)))

-- balloc found no block once m of the bytes were written.
abbrev pub Stopped : ℕ → (ℕ → ℕ) → State → ℕ → ℕ → ℕ → State → Type 0
Stopped ip src s off left tot t =
    (m : ℕ) × (m ≤ left) × Changed ip (written s ip off m src tot) s t × UsedBelow t t.sb.size

module _ (ip : ℕ) (src : ℕ → ℕ) (bytes : (j : ℕ) → src j < 256) where
  -- One round, with the block b that bmap has given
  round_written :
      (s t : State) (b off m tot : ℕ)
      → Laid s ip
      → off + m ≤ maxfile * bsize
      → 0 < m
      → off % bsize + m ≤ bsize
      → Got ip (off / bsize) s b t
      → Changed ip
          (written s ip off m src tot)
          s
          (record t { view = update t.view b (blit (t.view b) (off % bsize) m src tot) })
  round_written s t b off m tot l fit pos inside g =
      Changed-cong
        (Changed-trans (Extends-Changed g.extends) (
          write_block t ip (off / bsize) b (blit (t.view b) (off % bsize) m src tot) laid
            (omega arith) g.here g.real
            (λ o.
              blit-lt (t.view b) (off % bsize) m src tot o (laid.formatted.mapped.bytes b) bytes)))
        (λ o lo.
          blit_round (content t ip) (t.view b) off m src tot o inside (λ e. at_block o e)
          ∙ blit-cong (content t ip) (content s ip) off m src tot o (g.extends.grows.content o lo))
    where
      laid : Laid t ip
      laid = Extends-Laid g.extends

      at_block : (o : ℕ) → o / bsize ≡ off / bsize → content t ip o ≡ t.view b (o % bsize)
      at_block o e = rw (e, g.here, ne→== b 0 g.real) refl

  -- The blocks of a round and of those after it
  covered :
      {s t u : State} {g : ℕ → ℕ} (b off m k : ℕ) (a : Block)
      → Laid t ip
      → Got ip (off / bsize) s b t
      → off / bsize < maxfile
      → off % bsize + m ≤ bsize
      → ((o : ℕ) → a o < 256)
      → Changed ip g (record t { view = update t.view b a }) u
      → Covers ip (off + m) (k - m) u
      → Covers ip off k u
  covered {s} {t} {u} b off m k a laid g lt inside small c rest o ge lo =
      elim (Bool-cases (ltb o (off + m))) [
        | inl e ↦
            let q : o / bsize ≡ off / bsize = omega (tests, e, ltb→lt o (off + m) e) in
            let w = write_block t ip (off / bsize) b a laid lt g.here g.real small in
            subst (λ i. block_of u.view (u.icache ip).addrs i ≢ 0) (sym q)
              (c.present (off / bsize) (w.present (off / bsize) (λ z. g.real (sym g.here ∙ z))))
        | inr e ↦ rest o (ltb→le o (off + m) e) (omega (arith, ltb→le o (off + m) e))
      ]

  -- The following rounds
  then_written :
      {s w u : State} (off m tot k : ℕ)
      → Changed ip (written s ip off m src tot) s w
      → m ≤ k
      → Changed ip (written w ip (off + m) (k - m) src (tot + m)) w u
      → Changed ip (written s ip off k src tot) s u
  then_written {s} {w} {u} off m tot k c le c' = Changed-cong (Changed-trans c c') (λ o lo.
      blit-cong (content w ip) (written s ip off m src tot) (off + m) (k - m) src (tot + m) o
        (c.bytes o lo)
      ∙ blit_join (content s ip) off m k src tot o le)

  pub write_from-written :
      (fuel left tot off : ℕ) (s : State)
      → Laid s ip
      → left ≤ fuel
      → off + left ≤ maxfile * bsize
      → Ends
          (λ last t.
            Changed ip (written s ip off left src tot) s t
            × (last ≡ off + left)
            × Covers ip off left t)
          (Stopped ip src s off left tot)
          (write_from fuel left tot off ip src s)
  unfolding write_from
  write_from-written zero left tot off s l le fit =
      let z : left ≡ 0 = omega arith in
      rw (z, write_from)
        (ends (
          Changed-cong (Extends-Changed (Extends-refl l))
              (λ o lo. blit_none (content s ip) off src tot o),
          omega arith,
          λ o ge lo. absurd (omega (arith, ge, lo)),
        ))
  write_from-written (suc fuel) left tot off s l le fit = elim (Bool-cases (left == 0)) [
    | inl e ↦
        let z : left ≡ 0 = ==→eq left 0 e in
        rw (z, write_from)
          (ends (
            Changed-cong (Extends-Changed (Extends-refl l))
                (λ o lo. blit_none (content s ip) off src tot o),
            omega arith,
            λ o ge lo. absurd (omega (arith, ge, lo, z)),
          ))
    | inr e ↦
        let c = chunk-Chunk left off (==→ne left 0 e) in
        rw (e, write_from)
          (bind
            (mono (bmap-Got s ip (off / bsize) l (omega (arith, c.some_left, c.no_more)))
              (λ b t g. g)
              (λ t q. (
                0,
                omega arith,
                Changed-cong (Extends-Changed q.0) (λ o lo. blit_none (content s ip) off src tot o),
                q.1,
              )))
            (λ b t g.
              let r =
                round_written s t b off (chunk left off) tot l (omega (arith, c.no_more))
                  c.some_left c.in_block g in
              mono
                (write_from-written fuel (left - chunk left off) (tot + chunk left off)
                  (off + chunk left off)
                  (record t {
                    view = update t.view b (blit (t.view b) (off % bsize) (chunk left off) src tot);
                  })
                  (Changed-Laid r) (omega (arith, c.some_left)) (omega (arith, c.no_more)))
                (λ last u p. (
                  then_written off (chunk left off) tot left r c.no_more p.0,
                  p.1 ∙ omega (arith, c.no_more),
                  covered b off (chunk left off) left _ (Extends-Laid g.extends) g
                      (omega (arith, c.some_left, c.no_more)) c.in_block
                      (λ o.
                        blit-lt (t.view b) (off % bsize) (chunk left off) src tot o
                          ((Extends-Laid g.extends).formatted.mapped.bytes b) bytes)
                      p.0 p.2,
                ))
                (λ u q. further r c q)))
  ]
    where
      further :
          {w u : State}
          → Changed ip (written s ip off (chunk left off) src tot) s w
          → Chunk left off (chunk left off)
          → Stopped ip src w (off + chunk left off) (left - chunk left off) (tot + chunk left off) u
          → Stopped ip src s off left tot u
      further {w} {u} r c (m, le, ch, full) =
          let k : chunk left off + m - chunk left off ≡ m = omega arith in
          (
            chunk left off + m,
            omega (arith, c.no_more),
            then_written off (chunk left off) tot (chunk left off + m) r (omega arith) (
                subst
                  (λ n.
                    Changed ip (written w ip (off + chunk left off) n src (tot + chunk left off)) w
                      u)
                  (sym k) ch),
            full,
          )
