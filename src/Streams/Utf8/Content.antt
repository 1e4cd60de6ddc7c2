-- ===== src/Streams/Utf8/Content.antt =====
-- streams/utf8_input_stream.cc: a stream that is UTF-8 already keeps its bytes.
use ml_io.Base.{
  ℕ, zero, suc, ◌-◌, ◌≤◌, ◌<◌, ◌≡◌, refl, sym, ap, subst, ◌∙◌, ◌⊎◌, inl, inr, Bool, true, Option,
  none, some, [], ◌∷◌, ◌++◌, append_assoc, length, length-take, take, drop, take-nil,
  take-append-drop, ◌==◌, if◌then◌else◌, Bool-cases, Bytes, arith,
}
use ml_io.Action.{Result, ok}
use ml_io.Streams.{InputStream, IsStream, ReadsOf, fill_buffer, read_on, append_piece}
use ml_io.Streams.Utf8.{
  TextEncoding, utf8, infer_bom_encoding, Iconv, Utf8Stream, open_stream, copy_from_remainder,
  on_inner, read_by, read, set_preamble, Made, as_it_is, wrapped, wrap, by_mark, inferred,
  make_utf8_stream,
}

take-append_ge :
    (n : ℕ) (xs ys : Bytes) → length xs ≤ n → take n (xs ++ ys) ≡ xs ++ take (n - length xs) ys
take-append_ge n [] ys l = ap (λ k. take k ys) (omega arith)
take-append_ge zero (x ∷ xs) ys l = absurd (omega arith)
take-append_ge (suc n) (x ∷ xs) ys l =
    let same : n - length xs ≡ suc n - length (x ∷ xs) = omega arith in
    ap (λ k. x ∷ k) (take-append_ge n xs ys (omega arith) ∙ ap (λ k. xs ++ take k ys) same)

module _ (m : InputStream) (content : Bytes) (st : IsStream m content) where
  open m use {State}

  -- The buffer takes the first bytes that are to come.
  record Fills (room : ℕ) (s : State) (r : Result Bytes × State) : Type 0 where
    left : State
    returns : r ≡ (ok (take room (st.rest s)), left)
    cut : st.rest s ≡ take room (st.rest s) ++ st.rest left

  Fills-none : (s : State) → Fills 0 s (ok [], s)
  Fills-none s = record { left = s; returns = refl; cut = refl }

  read_on-Fills :
      (fuel room : ℕ) (s : State)
      → ReadsOf st.rest room s (m.read room s)
      → ((room' : ℕ) (t : State) → room' < room → Fills room' t (fill_buffer m fuel room' t))
      → Fills room s (read_on m room (fill_buffer m fuel) (m.read room s))
  read_on-Fills fuel room s r k =
      subst (λ x. Fills room s (read_on m room (fill_buffer m fuel) x)) (sym r.returns)
        (go r.piece r.left r.cut r.fits r.at_end)
    where
      go :
          (piece : Bytes) (left : State)
          → st.rest s ≡ piece ++ st.rest left
          → length piece ≤ room
          → (piece ≡ [] → st.rest s ≡ [])
          → Fills room s (read_on m room (fill_buffer m fuel) (ok piece, left))
      go [] left cut fits at_end =
          let taken : take room (st.rest s) ≡ [] = ap (take room) (at_end refl) ∙ take-nil room in
          record {
            left = left;
            returns = ap (λ p. (ok p, left)) (sym taken);
            cut = cut ∙ ap (λ p. p ++ st.rest left) (sym taken);
          }
      go (b ∷ bs) left cut fits at_end =
          let f = k (room - length (b ∷ bs)) left (omega arith) in
          let taken : take room (st.rest s)
              ≡ (b ∷ bs) ++ take (room - length (b ∷ bs)) (st.rest left) =
            ap (take room) cut ∙ take-append_ge room (b ∷ bs) (st.rest left) fits in
          record {
            left = f.left;
            returns = ap (append_piece m (b ∷ bs)) f.returns ∙ ap (λ p. (ok p, f.left)) (sym taken);
            cut =
                cut
                ∙ ap (λ p. (b ∷ bs) ++ p) f.cut
                ∙ sym (
                    append_assoc (b ∷ bs) (take (room - length (b ∷ bs)) (st.rest left))
                      (st.rest f.left))
                ∙ ap (λ p. p ++ st.rest f.left) (sym taken);
          }

  fill_buffer-Fills :
      (fuel room : ℕ) (s : State) → room ≤ fuel → Fills room s (fill_buffer m fuel room s)
  unfolding fill_buffer
  fill_buffer-Fills zero room s l =
      let none_left : 0 ≡ room = omega arith in
      subst (λ k. Fills k s (ok [], s)) none_left (Fills-none s)
  fill_buffer-Fills (suc fuel) room s l = elim (Bool-cases (room == 0)) [
    | inl e ↦
        let none_left : 0 ≡ room = ground arith in
        rw e (subst (λ k. Fills k s (ok [], s)) none_left (Fills-none s))
    | inr e ↦ rw e (
        read_on-Fills fuel room s (st.reads room s (ground arith))
          (λ room' t less. fill_buffer-Fills fuel room' t (omega arith)))
  ]

  module _ (ic : Iconv) where
    abbrev pub rest_of : Utf8Stream m ic → Bytes
    rest_of w = w.remaining_bits ++ st.rest w.inner

    -- A call of `read` on a stream that was found to be UTF-8.
    pub record ReadsUtf8 (n : ℕ) (w : Utf8Stream m ic) (r : Result Bytes × Utf8Stream m ic)
        : Type 0 where
      pub law : ReadsOf rest_of n w r
      pub still_utf8 : law.left.is_utf8 ≡ true

    read_remaining :
        (n b : ℕ) (bs : Bytes) (w : Utf8Stream m ic)
        → 0 < n
        → w.is_utf8 ≡ true
        → w.remaining_bits ≡ b ∷ bs
        → ReadsUtf8 n w (copy_from_remainder m ic n w)
    unfolding copy_from_remainder
    read_remaining n b bs w l u e = record {
      law = record {
        piece = take n w.remaining_bits;
        left = record w { remaining_bits = drop n w.remaining_bits };
        returns = refl;
        cut =
            ap (λ p. p ++ st.rest w.inner) (sym (take-append-drop n w.remaining_bits))
            ∙ append_assoc (take n w.remaining_bits) (drop n w.remaining_bits) (st.rest w.inner);
        fits = omega (arith, length-take n w.remaining_bits);
        at_end = λ nothing. absurd (
            omega (
              arith,
              length-take n w.remaining_bits,
              ap (λ x. length x) nothing,
              ap (λ x. length x) e,
            ));
      };
      still_utf8 = u;
    }

    read-ReadsUtf8 :
        (fuel n : ℕ) (w : Utf8Stream m ic)
        → 0 < n
        → w.is_utf8 ≡ true
        → ReadsUtf8 n w (read m ic fuel n w)
    unfolding read
    read-ReadsUtf8 fuel n w l u = go w.remaining_bits refl
      where
        go : (rb : Bytes) → w.remaining_bits ≡ rb → ReadsUtf8 n w (read_by m ic fuel n rb w)
        go (b ∷ bs) e = read_remaining n b bs w l u e
        go [] e =
            let r = st.reads n w.inner l in
            let reads_inner : read_by m ic fuel n [] w ≡ on_inner m ic w (m.read n w.inner) =
              ground (arith, u) in
            record {
              law = record {
                piece = r.piece;
                left = record w { inner = r.left };
                returns = reads_inner ∙ ap (on_inner m ic w) r.returns;
                cut =
                    ap (λ p. p ++ st.rest w.inner) e
                    ∙ r.cut
                    ∙ ap (λ p. r.piece ++ (p ++ st.rest r.left)) (sym e);
                fits = r.fits;
                at_end = λ nothing. ap (λ p. p ++ st.rest w.inner) e ∙ r.at_end nothing;
              };
              still_utf8 = u;
            }

    -- The stream that was made has a content still to give, and gives it.
    abbrev pub Serves : Bytes → Made m ic → Type 0
    Serves bytes (as_it_is s) = st.rest s ≡ bytes
    Serves bytes (wrapped w) =
        (w.is_utf8 ≡ true)
        × (rest_of w ≡ bytes)
        × ((fuel n : ℕ) (v : Utf8Stream m ic)
            → 0 < n
            → v.is_utf8 ≡ true
            → ReadsUtf8 n v (read m ic fuel n v))

    wrap-Serves :
        (buffer_size : ℕ) (preamble : Bytes) (s : State)
        → preamble ++ st.rest s ≡ content
        → Serves content (wrap m ic buffer_size s preamble utf8)
    unfolding set_preamble
    wrap-Serves buffer_size preamble s e = elim (Bool-cases m.seekable) [
      | inl k ↦ subst (λ b. Serves content (chosen b)) (sym k) (refl, st.seeks s k, read-ReadsUtf8)
      | inr k ↦ subst (λ b. Serves content (chosen b)) (sym k) (refl, e, read-ReadsUtf8)
    ]
      where
        chosen : Bool → Made m ic
        chosen b =
            if b
            then wrapped (open_stream m ic buffer_size (m.seek_to_start s) utf8)
            else wrapped (set_preamble m ic preamble (open_stream m ic buffer_size s utf8))

    by_mark-Serves :
        (buffer_size : ℕ) (preamble : Bytes) (s : State) (mark : Option TextEncoding)
        → (mark ≡ none) ⊎ (mark ≡ some utf8)
        → preamble ++ st.rest s ≡ content
        → Serves content (by_mark m ic buffer_size preamble s mark)
    by_mark-Serves buffer_size preamble s mark (inr u) e =
        subst (λ k. Serves content (by_mark m ic buffer_size preamble s k)) (sym u)
          (wrap-Serves buffer_size preamble s e)
    by_mark-Serves buffer_size preamble s mark (inl u) e =
        subst (λ k. Serves content (by_mark m ic buffer_size preamble s k)) (sym u)
          (elim (Bool-cases m.seekable) [
            | inl k ↦ subst (λ b. Serves content (chosen b)) (sym k) (st.seeks s k)
            | inr k ↦
                subst (λ b. Serves content (chosen b)) (sym k)
                  (wrap-Serves buffer_size preamble s e)
          ])
      where
        chosen : Bool → Made m ic
        chosen b = if b then as_it_is (m.seek_to_start s) else wrap m ic buffer_size s preamble utf8

    -- Where a stream has its whole content still to give, the encoding is to be inferred, and the first
    -- bytes show no mark or that of UTF-8, the stream that is made has the same content to give,
    -- whether it can seek or not: no byte is lost or served twice, and each read on a wrapped stream
    -- that is UTF-8 gives the next bytes, at least one unless the content is at its end.
    pub make_utf8_stream-Serves :
        (buffer_size : ℕ) (s : State)
        → st.rest s ≡ content
        → (infer_bom_encoding (take 4 content) ≡ none)
          ⊎ (infer_bom_encoding (take 4 content) ≡ some utf8)
        → (made : Made m ic) × (make_utf8_stream m ic buffer_size none s ≡ ok made)
          × Serves content made
    unfolding make_utf8_stream
    make_utf8_stream-Serves buffer_size s e h =
        let f = fill_buffer-Fills 4 4 s (omega arith) in
        (
          by_mark m ic buffer_size (take 4 (st.rest s)) f.left
              (infer_bom_encoding (take 4 (st.rest s))),
          ap (inferred m ic buffer_size) f.returns,
          by_mark-Serves buffer_size (take 4 (st.rest s)) f.left
              (infer_bom_encoding (take 4 (st.rest s)))
              (subst
                (λ c.
                  (infer_bom_encoding (take 4 c) ≡ none)
                  ⊎ (infer_bom_encoding (take 4 c) ≡ some utf8))
                (sym e) h)
              (sym f.cut ∙ e),
        )
