-- ===== src/Server/Appending.antt =====
-- The buffer after chunks of several sessions, in the order of their arrival.
use interlatent.Base.{
  ℕ, zero, suc, ◌+◌, ◌-◌, ◌≤◌, String, string_key, string_discrete, Bool, none, List, [], ◌∷◌, ◌++◌,
  length, length-append, length-drop, drop, ite, ltb, if◌then◌else◌, ◌≡◌, refl, sym, ap, ◌∙◌, arith,
  if_pos, if_neg,
}
use mathlib.Core.List.{append_assoc, append-nil}
use interlatent.Base.Dict.{get, get-put}
use interlatent.Server.ChunkBuffer.{
  StoredChunk, InMemoryChunkBuffer, or_empty, last, append, recent, lookup_steps, stitch, all_set,
}
use interlatent.Server.Rows.{newest, cells_of}
use interlatent.Server.Stitching.{stitch-newest}

module _ {A : Type 0} where
  drop_nil : (n : ℕ) → drop {A = A} n [] ≡ []
  drop_nil zero = refl
  drop_nil (suc n) = refl

  drop-drop : (d e : ℕ) (xs : List A) → drop e (drop d xs) ≡ drop (d + e) xs
  drop-drop zero e xs = let same_count : e ≡ 0 + e = omega arith in ap (λ n. drop n xs) same_count
  drop-drop (suc d) e [] = drop_nil e ∙ sym (drop_nil (suc d + e))
  drop-drop (suc d) e (x ∷ xs) =
      let next : suc d + e ≡ suc (d + e) = omega arith in rw next (drop-drop d e xs)

  drop-append : (d : ℕ) (xs ys : List A) → d ≤ length xs → drop d xs ++ ys ≡ drop d (xs ++ ys)
  drop-append zero xs ys h = refl
  drop-append (suc d) [] ys h = ground (arith, h)
  drop-append (suc d) (x ∷ xs) ys h = drop-append d xs ys (omega (arith, h))

  -- Only the last entries of what was kept can be among the last entries.
  last-last : (n : ℕ) (xs ys : List A) → last n (last n xs ++ ys) ≡ last n (xs ++ ys)
  unfolding last
  last-last n xs ys =
      let d = length xs - n in
      let kept : length (drop d xs) ≡ length xs - d = length-drop d xs in
      let both : length (drop d xs ++ ys) ≡ length (drop d xs) + length ys =
        length-append (drop d xs) ys in
      let whole : length (xs ++ ys) ≡ length xs + length ys = length-append xs ys in
      ap (drop (length (drop d xs ++ ys) - n)) (drop-append d xs ys (omega arith))
      ∙ drop-drop d (length (drop d xs ++ ys) - n) (xs ++ ys)
      ∙ ap (λ k. drop k (xs ++ ys)) (omega (arith, kept, both, whole))

  last_self : (n : ℕ) (xs : List A) → length xs ≤ n → last n xs ≡ xs
  unfolding last
  last_self n xs h = let none_over : length xs - n ≡ 0 = omega (arith, h) in rw none_over refl

  length-last : (n : ℕ) (xs : List A) → length (last n xs) ≤ n
  unfolding last
  length-last n xs = omega (arith, length-drop (length xs - n) xs)

module _ {V : Type 0} where
  unfoldable pub append_all :
      InMemoryChunkBuffer V → List (String × StoredChunk V) → InMemoryChunkBuffer V
  append_all buf [] = buf
  append_all buf ((session_id, chunk) ∷ xs) = append_all (append buf session_id chunk) xs

  -- A session's own chunks, oldest first.
  unfoldable pub chunks_of : String → List (String × StoredChunk V) → List (StoredChunk V)
  chunks_of session_id [] = []
  chunks_of session_id ((other, chunk) ∷ xs) =
      ite (string_discrete other session_id) (chunk ∷ chunks_of session_id xs)
        (chunks_of session_id xs)

  abbrev queue : InMemoryChunkBuffer V → String → List (StoredChunk V)
  queue buf session_id = or_empty (get session_id buf.data_of)

  queue-append :
      (buf : InMemoryChunkBuffer V) (other session_id : String) (c : StoredChunk V)
      → queue (append buf other c) session_id
        ≡ ite
            (string_discrete other session_id)
            (last buf.max_chunks_per_session (queue buf session_id ++ c ∷ []))
            (queue buf session_id)
  unfolding append
  queue-append buf other session_id c =
      let n = buf.max_chunks_per_session in
      let stored = last n (queue buf other ++ c ∷ []) in
      elim (string_discrete other session_id) [
        | yes p ↦
            rw
              (
                get-put other session_id stored buf.data_of,
                if_pos (string_discrete other session_id) p,
                if_pos (string_discrete other session_id) p,
              )
              (ap (λ k. last n (queue buf k ++ c ∷ [])) p)
        | no p ↦
            rw
              (
                get-put other session_id stored buf.data_of,
                if_neg (string_discrete other session_id) p,
                if_neg (string_discrete other session_id) p,
              )
              refl
      ]

  queue-append_all :
      (buf : InMemoryChunkBuffer V) (session_id : String) (xs : List (String × StoredChunk V))
      → length (queue buf session_id) ≤ buf.max_chunks_per_session
      → queue (append_all buf xs) session_id
        ≡ last buf.max_chunks_per_session (queue buf session_id ++ chunks_of session_id xs)
  unfolding append_all chunks_of append
  queue-append_all buf session_id [] h = sym (
      ap (last buf.max_chunks_per_session) (append-nil (queue buf session_id))
      ∙ last_self buf.max_chunks_per_session (queue buf session_id) h)
  queue-append_all buf session_id ((other, chunk) ∷ xs) h =
      let n = buf.max_chunks_per_session in
      let old = queue buf session_id in
      elim (string_discrete other session_id) [
        | yes p ↦
            let now : queue (append buf other chunk) session_id ≡ last n (old ++ chunk ∷ []) =
              queue-append buf other session_id chunk
              ∙ if_pos (string_discrete other session_id) p (last n (old ++ chunk ∷ [])) old in
            rw (if_pos _ p) (
              queue-append_all (append buf other chunk) session_id xs
                (rw now (length-last n (old ++ chunk ∷ [])))
              ∙ ap (λ q. last n (q ++ chunks_of session_id xs)) now
              ∙ last-last n (old ++ chunk ∷ []) (chunks_of session_id xs)
              ∙ ap (last n) (append_assoc old (chunk ∷ []) (chunks_of session_id xs)))
        | no p ↦
            let now : queue (append buf other chunk) session_id ≡ old =
              queue-append buf other session_id chunk
              ∙ if_neg (string_discrete other session_id) p (last n (old ++ chunk ∷ [])) old in
            rw (if_neg _ p) (
              queue-append_all (append buf other chunk) session_id xs (rw now h)
              ∙ ap (λ q. last n (q ++ chunks_of session_id xs)) now)
      ]

  capacity-append_all :
      (buf : InMemoryChunkBuffer V) (xs : List (String × StoredChunk V))
      → (append_all buf xs).max_chunks_per_session ≡ buf.max_chunks_per_session
  unfolding append_all append
  capacity-append_all buf [] = refl
  capacity-append_all buf ((other, chunk) ∷ xs) = capacity-append_all (append buf other chunk) xs

  -- After any sequence of chunks of any sessions, a new buffer answers for a session from the last
  -- `max_chunks` of its own chunks: a row for each step from the newest of these that covers it,
  -- or nothing if a step has no row or a row holds a NaN.
  pub lookup_steps-append_all :
      (has_nan : V → Bool) (max_chunks : ℕ) (xs : List (String × StoredChunk V))
      (session_id : String) (start end : ℕ)
      → lookup_steps has_nan
          (append_all (record { max_chunks_per_session = max_chunks; data_of = [] }) xs)
          session_id
          start
          end
        ≡ (if ltb start end
            then all_set has_nan (
                cells_of
                  (newest (last max_chunks (chunks_of session_id xs)) (λ t. none))
                  start
                  (end - start))
            else none)
  unfolding lookup_steps recent get
  lookup_steps-append_all has_nan max_chunks xs session_id start end =
      let new : InMemoryChunkBuffer V = record {
        max_chunks_per_session = max_chunks;
        data_of = [];
      } in
      let buf = append_all new xs in
      let own = chunks_of session_id xs in
      let kept : queue buf session_id ≡ last max_chunks own =
        queue-append_all new session_id xs (omega arith) in
      ap (λ n. stitch has_nan (last n (queue buf session_id)) start end)
        (capacity-append_all new xs)
      ∙ ap (λ q. stitch has_nan (last max_chunks q) start end) kept
      ∙ ap (λ q. stitch has_nan q start end)
          (last_self max_chunks (last max_chunks own) (length-last max_chunks own))
      ∙ stitch-newest has_nan (last max_chunks own) start end
