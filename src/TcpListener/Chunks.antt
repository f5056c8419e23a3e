-- ===== src/TcpListener/Chunks.antt =====
-- The lines that `tcp_listener` of src/network_tcp.c processes do not depend on how the stream is cut
-- into chunks, as long as no cut stands between CR and LF.
use ipk_projekt.World.{Config, LineBuffer, World, continue}
use ipk_projekt.Memory.{Bytes, IsText}
use ipk_projekt.Deserialize.RoundTrip.{Succeeds}
use ipk_projekt.TcpListener.{
  cut_lines, finish_line, save_rest, process_tcp_message, take_chunks, take_chunk, chunk_text,
}
use ipk_projekt.Base.{
  ℕ, ◌≡◌, ◌∷◌, ◌++◌, [], length, ap, false, sym, ◌<◌, append-nil, none, arith, some, suc, refl,
  Option-cases, ok, inl, inr, zero, ◌∙◌, Result, length-append, All-append, List, ◌≢◌, ◌+◌, All,
  append_assoc,
}
use ipk_projekt.Lines.Growth.{
  extended-HasRoom, extended-extended, append_line-extended, extended, HasRoom,
}
use ipk_projekt.Strings.Search.{
  ends_in_cr, find_crlf-append, find_crlf-after, put_all_before, find_crlf_ends, ends_in_cr-append,
}
use ipk_projekt.Strings.{strstr}
use ipk_projekt.Tcp.{crlf}
use ipk_projekt.World.Laws.{continue-continue, continue_cong, continue-pure}
use ipk_projekt.Memory.Laws.{c_str-text, concat}

-- What `line_buffer` holds after the end of a chunk without a line end.
abbrev pub saved : Bytes → LineBuffer → LineBuffer
saved [] b = b
saved (c ∷ s) b = extended (c ∷ s) b

-- ... and after a line.
abbrev pub reset : Bytes → LineBuffer → LineBuffer
reset line b = record (extended line b) { text = [] }

pub saved-HasRoom : (s : Bytes) (b : LineBuffer) → HasRoom b → HasRoom (saved s b)
saved-HasRoom [] b v = v
saved-HasRoom (c ∷ s) b v = extended-HasRoom (c ∷ s) b v

saved-saved : (s t : Bytes) (b : LineBuffer) → saved t (saved s b) ≡ saved (s ++ t) b
saved-saved [] t b = refl
saved-saved (c ∷ s) [] b = ap (λ u. extended (c ∷ u) b) (sym (append-nil s))
saved-saved (c ∷ s) (d ∷ t) b = extended-extended (c ∷ s) (d ∷ t) b

extended-saved : (s t : Bytes) (b : LineBuffer) → extended t (saved s b) ≡ extended (s ++ t) b
extended-saved [] t b = refl
extended-saved (c ∷ s) t b = extended-extended (c ∷ s) t b

-- The chunks hold no NUL and do not end between CR and LF.
abbrev pub IsWhole : Bytes → Type 0
IsWhole chunk = IsText chunk × (ends_in_cr chunk ≡ false)

module _ (cfg : Config) where
  -- More fuel than the text has characters changes nothing.
  cut_lines_fuel :
      (f g : ℕ) (s : Bytes) (b : LineBuffer) (w : World)
      → length s < f
      → length s < g
      → cut_lines f cfg s b w ≡ cut_lines g cfg s b w
  unfolding cut_lines
  cut_lines_fuel zero g s b w h k = absurd (omega arith)
  cut_lines_fuel (suc f) zero s b w h k = absurd (omega arith)
  cut_lines_fuel (suc f) (suc g) s b w h k = elim (Option-cases (strstr crlf s)) [
    | inl e ↦ rw (e, cut_lines)
    | inr ((line, rest), e) ↦
        let (_, shorter) = find_crlf-append s [] e in
        rw (e, cut_lines)
          (continue_cong (finish_line cfg line b w) (cut_lines f cfg rest) (cut_lines g cfg rest)
            (λ b' w'. cut_lines_fuel f g rest b' w' (omega arith) (omega arith)))
  ]

  module _ (roomy : Succeeds cfg.malloc) where
    pub cut_lines-none :
        (f : ℕ) (s : Bytes) (b : LineBuffer) (w : World)
        → HasRoom b
        → strstr crlf s ≡ none
        → cut_lines (suc f) cfg s b w ≡ (ok (saved s b), w)
    unfolding cut_lines save_rest
    cut_lines-none f [] b w v e = refl
    cut_lines-none f (c ∷ s) b w v e =
        rw (e, cut_lines, append_line-extended cfg.malloc (c ∷ s) b roomy v)

    -- The line is processed and the rest is cut.
    abbrev pub after_line : ℕ → Bytes → World → LineBuffer → Result LineBuffer × World
    after_line f rest w line =
        continue (process_tcp_message cfg line.text w)
          (λ _. cut_lines f cfg rest (record line { text = [] }))

    pub cut_lines-some :
        (f : ℕ) (s line rest : Bytes) (b : LineBuffer) (w : World)
        → HasRoom b
        → strstr crlf s ≡ some (line, rest)
        → cut_lines (suc f) cfg s b w ≡ after_line f rest w (extended line b)
    unfolding cut_lines finish_line
    cut_lines-some f s line rest b w v e =
        rw (e, cut_lines, append_line-extended cfg.malloc line b roomy v)
          (continue-continue (process_tcp_message cfg (b.text ++ line) w) _ _)

    -- Two chunks, the first of which does not end in CR, are taken as one.
    cut_lines-append :
        (f g k : ℕ) (s t : Bytes) (b : LineBuffer) (w : World)
        → HasRoom b
        → ends_in_cr s ≡ false
        → length s < f
        → length t < g
        → length (s ++ t) < k
        → continue (cut_lines f cfg s b w) (cut_lines g cfg t) ≡ cut_lines k cfg (s ++ t) b w
    cut_lines-append zero g k s t b w v e hf hg hk = absurd (omega arith)
    cut_lines-append (suc f) zero k s t b w v e hf hg hk = absurd (omega arith)
    cut_lines-append (suc f) (suc g) zero s t b w v e hf hg hk = absurd (omega arith)
    cut_lines-append (suc f) (suc g) (suc k) s t b w v e hf hg hk =
        elim (Option-cases (strstr crlf s)) [
          | inl unmatched ↦
              ap (λ r. continue r (cut_lines (suc g) cfg t)) (cut_lines-none f s b w v unmatched)
              ∙ elim (Option-cases (strstr crlf t)) [
                | inl unmatched' ↦
                    cut_lines-none g t (saved s b) w (saved-HasRoom s b v) unmatched'
                    ∙ ap {B = Result LineBuffer × World} (λ b'. (ok b', w)) (saved-saved s t b)
                    ∙ sym (
                        cut_lines-none k (s ++ t) b w v
                          (find_crlf-after s t unmatched e ∙ ap (put_all_before s) unmatched'))
                | inr ((line, rest), found) ↦
                    let (_, shorter) = find_crlf-append t [] found in
                    cut_lines-some g t line rest (saved s b) w (saved-HasRoom s b v) found
                    ∙ ap (after_line g rest w) (extended-saved s line b)
                    ∙ continue_cong (process_tcp_message cfg (b.text ++ (s ++ line)) w) _ _ (λ _ w'.
                      cut_lines_fuel g k rest (reset (s ++ line) b) w' (omega arith)
                        (omega (arith, length-append s t)))
                    ∙ sym (
                        cut_lines-some k (s ++ t) (s ++ line) rest b w v
                          (find_crlf-after s t unmatched e ∙ ap (put_all_before s) found))
              ]
          | inr ((line, rest), found) ↦
              let (found', shorter) = find_crlf-append s t found in
              ap (λ r. continue r (cut_lines (suc g) cfg t))
                (cut_lines-some f s line rest b w v found)
              ∙ continue-continue (process_tcp_message cfg (b.text ++ line) w) _ _
              ∙ continue_cong (process_tcp_message cfg (b.text ++ line) w) _ _ (λ _ w'.
                cut_lines-append f (suc g) k rest t (reset line b) w' (inl refl)
                  (find_crlf_ends s found e) (omega arith) hg
                  (omega (arith, length-append s t, length-append rest t)))
              ∙ sym (cut_lines-some k (s ++ t) line (rest ++ t) b w v found')
        ]

    pub take_chunk-text :
        (chunk : Bytes) (b : LineBuffer) (w : World)
        → IsText chunk
        → take_chunk cfg chunk b w ≡ cut_lines (length chunk + 1) cfg chunk b w
    unfolding take_chunk chunk_text
    take_chunk-text chunk b w text = rw (c_str-text chunk [] text)

    pub IsWhole-append : (s t : Bytes) → IsWhole s → IsWhole t → IsWhole (s ++ t)
    IsWhole-append s t hs ht =
        (All-append (λ c. c ≢ 0) s t hs.0 ht.0, ends_in_cr-append s t hs.1 ht.1)

    take_chunk-append :
        (s t : Bytes) (b : LineBuffer) (w : World)
        → HasRoom b
        → IsWhole s
        → IsWhole t
        → continue (take_chunk cfg s b w) (take_chunk cfg t) ≡ take_chunk cfg (s ++ t) b w
    take_chunk-append s t b w v hs ht =
        ap (λ r. continue r (take_chunk cfg t)) (take_chunk-text s b w hs.0)
        ∙ continue_cong (cut_lines (length s + 1) cfg s b w) _ _
            (λ b' w'. take_chunk-text t b' w' ht.0)
        ∙ cut_lines-append (length s + 1) (length t + 1) (length (s ++ t) + 1) s t b w v hs.1
            (omega arith) (omega arith) (omega arith)
        ∙ sym (take_chunk-text (s ++ t) b w (All-append (λ c. c ≢ 0) s t hs.0 ht.0))

    -- Any number of chunks is taken as one.
    pub take_chunks-concat :
        (s : Bytes) (chunks : List Bytes) (b : LineBuffer) (w : World)
        → HasRoom b
        → IsWhole s
        → All IsWhole chunks
        → take_chunks cfg (s ∷ chunks) b w ≡ take_chunk cfg (s ++ concat chunks) b w
    unfolding take_chunks
    take_chunks-concat s [] b w v hs _ =
        continue-pure (take_chunk cfg s b w) ∙ ap (λ u. take_chunk cfg u b w) (sym (append-nil s))
    take_chunks-concat s (t ∷ chunks) b w v hs (ht, h) =
        sym (continue-continue (take_chunk cfg s b w) (take_chunk cfg t) (take_chunks cfg chunks))
        ∙ ap (λ r. continue r (take_chunks cfg chunks)) (take_chunk-append s t b w v hs ht)
        ∙ take_chunks-concat (s ++ t) chunks b w v (IsWhole-append s t hs ht) h
        ∙ ap (λ u. take_chunk cfg u b w) (append_assoc s t (concat chunks))
