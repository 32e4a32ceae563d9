-- ===== src/Texts/Moves.antt =====
-- What the writes into the buffer of a text leave in it.
use hemp.Base.{
  ℕ, ◌+◌, ◌-◌, ◌<◌, ◌≡◌, refl, sym, ap, ◌∙◌, some, List, [], ◌∷◌, ◌++◌, append_assoc, length, ◌>>=◌,
  arith, length-append,
}
use hemp.Texts.Buffer.{Text, write, read, padded}
use hemp.Texts.Laws.{
  Holds, Grown, Gives, split_at, write_over, read_in, padded_own, Grown-spare, finished_text,
}

-- A buffer `a ++ b ++ spare` with as many bytes as `insert` has and a NUL to spare.
record Inserted (buffer a b insert : List ℕ) : Type 0 where
  pub shifted : List ℕ
  pub middle : List ℕ
  pub rest : List ℕ
  pub first : write (length a + length insert) b buffer ≡ some shifted
  pub second : write (length a) insert shifted ≡ some middle
  pub third :
      write (length (a ++ insert ++ b)) (0 ∷ []) middle ≡ some ((a ++ insert ++ b) ++ 0 ∷ rest)
  pub same : length ((a ++ insert ++ b) ++ 0 ∷ rest) ≡ length buffer

split_in_three :
    (buffer a b insert x y zs : List ℕ) (z : ℕ)
    → buffer ≡ a ++ (x ++ (y ++ z ∷ zs))
    → length x ≡ length insert
    → length y ≡ length b
    → Inserted buffer a b insert
split_in_three buffer a b insert x y zs z e ex ey =
    let lx = length-append a x in
    let la = length-append a insert in
    let all = length-append (a ++ insert) b in
    record {
      shifted = (a ++ x) ++ (b ++ z ∷ zs);
      middle = a ++ (insert ++ (b ++ z ∷ zs));
      rest = zs;
      first =
          write_over (length a + length insert) b (a ++ x) y (z ∷ zs) buffer
            (e ∙ sym (append_assoc a x (y ++ z ∷ zs))) (omega arith) (sym ey);
      second =
          write_over (length a) insert a x (b ++ z ∷ zs) ((a ++ x) ++ (b ++ z ∷ zs))
            (append_assoc a x (b ++ z ∷ zs)) refl (sym ex);
      third =
          write_over (length (a ++ insert ++ b)) (0 ∷ []) (a ++ insert ++ b) (z ∷ []) zs
            (a ++ (insert ++ (b ++ z ∷ zs)))
            (sym (append_assoc a insert (b ++ z ∷ zs))
              ∙ sym (append_assoc (a ++ insert) b (z ∷ zs)))
            refl refl;
      same = rw e (
          omega (
            arith,
            length-append (a ++ insert ++ b) (0 ∷ zs),
            length-append a (x ++ (y ++ z ∷ zs)),
            length-append x (y ++ z ∷ zs),
            length-append y (z ∷ zs),
          ));
    }

spare_in_three :
    (buffer a b insert x y z : List ℕ)
    → buffer ≡ a ++ (x ++ (y ++ z))
    → length x ≡ length insert
    → length y ≡ length b
    → 0 < length z
    → Inserted buffer a b insert
spare_in_three buffer a b insert x y [] e ex ey p = absurd (omega arith)
spare_in_three buffer a b insert x y (z ∷ zs) e ex ey p =
    split_in_three buffer a b insert x y zs z e ex ey

inserted :
    (buffer a b insert spare : List ℕ)
    → buffer ≡ a ++ (b ++ spare)
    → length insert < length spare
    → Inserted buffer a b insert
inserted buffer a b insert spare e h =
    let l = length-append b spare in
    let (x, w, ew, lx, lw) = split_at (length insert) (b ++ spare) (omega arith) in
    let (y, z, ez, ly, lz) = split_at (length b) w (omega arith) in
    spare_in_three buffer a b insert x y z (e ∙ ap (λ k. a ++ k) (ew ∙ ap (λ k. x ++ k) ez)) lx ly
      (omega arith)

pub put_inside-Gives :
    (g : Text) (a b insert : List ℕ) (n : ℕ)
    → Grown g (a ++ b) n
    → n ≡ length (a ++ insert ++ b)
    → Gives
        (read (length a) (g.length - length a) g.string >>= λ moved.
          write (length a + length insert) moved g.string >>= λ shifted.
          write (length a) (padded (length insert) insert) shifted >>= λ bytes.
          write n (0 ∷ []) bytes >>= λ ended. some (record g { string = ended; length = n }))
        (a ++ insert ++ b)
unfolding Gives
put_inside-Gives g a b insert n h en =
    let c = h.capacious in
    let l = h.long in
    let la = length-append a b in
    let li = length-append a insert in
    let all = length-append (a ++ insert) b in
    let lg = h.keeps.length_is in
    let e = h.keeps.bytes ∙ append_assoc a b h.keeps.spare in
    let w =
      inserted g.string a b insert h.keeps.spare e (omega (arith, Grown-spare g (a ++ b) n h)) in
    let r =
      read_in (length a) (g.length - length a) a b h.keeps.spare g.string e refl (omega arith) in
    let done =
      finished_text g (a ++ insert ++ b) ((a ++ insert ++ b) ++ 0 ∷ w.rest) w.rest n refl w.same en
        c h.keeps.room in
    rw (r, w.first, padded_own insert, w.second) (rw en (rw w.third (_, refl, rw (sym en) done)))

-- A buffer that holds the bytes and a NUL.
pub replaced :
    (g : Text) (s r : List ℕ) (n : ℕ)
    → Grown g s n
    → n ≡ length r
    → Gives
        (write 0 (r ++ 0 ∷ []) g.string >>= λ bytes.
          write n (0 ∷ []) bytes >>= λ ended. some (record g { string = ended; length = n }))
        r
unfolding Gives
replaced g s r n h en =
    let c = h.capacious in
    let lr = length-append r (0 ∷ []) in
    let long = h.long in
    let (ys, zs, e, ly, lz) = split_at (length r + 1) g.string (omega arith) in
    let first = write_over 0 (r ++ 0 ∷ []) [] ys zs g.string e refl (omega arith) in
    let second =
      write_over n (0 ∷ []) r (0 ∷ []) zs ((r ++ 0 ∷ []) ++ zs) (append_assoc r (0 ∷ []) zs) en
        refl in
    let done =
      finished_text g r (r ++ 0 ∷ zs) zs n refl (omega (arith, length-append r (0 ∷ zs))) en c
        h.keeps.room in
    rw (first, second) (_, refl, done)

pub truncated-split :
    (t : Text) (a b : List ℕ) (len : ℕ)
    → Holds t (a ++ b)
    → len ≡ length a
    → 0 < length b
    → Gives
        (write len (0 ∷ []) t.string >>= λ ended. some (record t { string = ended; length = len }))
        a
unfolding Gives
truncated-split t a [] len h e p = absurd (omega arith)
truncated-split t a (c ∷ b) len h e p =
    let eb = h.bytes ∙ append_assoc a (c ∷ b) h.spare in
    let f = h.fits in
    let la = length-append a (c ∷ b) in
    let w = write_over len (0 ∷ []) a (c ∷ []) (b ++ h.spare) t.string eb e refl in
    let done =
      finished_text t a (a ++ 0 ∷ (b ++ h.spare)) (b ++ h.spare) len refl
        (omega (
          arith,
          ap (λ l. length l) eb,
          length-append a (0 ∷ (b ++ h.spare)),
          length-append a (c ∷ (b ++ h.spare)),
        ))
        e (omega arith) h.room in
    rw w (_, refl, done)
