-- ===== src/Gdb/Handshake/Matched.antt =====
-- A call that a signal woke got the result of its own command.
use vimgdb.Base.{
  ℕ, ◌+◌, ◌≡◌, refl, sym, subst, Bool, true, false, not, ◌&&◌, [], ◌∷◌, Option, some, ◌==◌, ==_iff,
  Bool-cases, inl, inr, ◌⊎◌, arith, All, All-append, length, length-append,
}
use mathlib.Core.Option.{some-injective}
use vimgdb.Common.Text.{u32}
use vimgdb.Gdb.Handshake.{
  ResultClass, is_exit, Response, Answer, Mi, init, wait_resp, mi_proc_result, take_resp, Step,
  issues, receives, wakes, wakes_early, Reach, here, next,
}

module _ {R : Type 0} where
  -- The response is for the command with the token, or it tells that gdb ended.
  abbrev pub Answers : ℕ → Response R → Type 0
  Answers token r = (is_exit r.rclass ≡ true) ⊎ (r.token ≡ token)

  -- What a signal brought is for the command of the call.
  abbrev pub Matches : Answer R → Type 0
  Matches a = (a.signalled ≡ false) ⊎ Answers a.issued a.response

  -- Each call that was signalled got the response to its own command; the tokens count the calls.
  pub record IsMatched (m : Mi R) : Type 0 where
    pub pending : (r : Response R) → m.woken ≡ true → m.resp ≡ some r → Answers m.token r
    pub answered : All Matches m.answers
    pub counted : m.token ≡ u32 (1 + length m.answers)

  receives-IsMatched :
      (c : ResultClass) (token : ℕ) (result : Option R) (m : Mi R)
      → IsMatched m
      → IsMatched (mi_proc_result c token result m)
  unfolding mi_proc_result
  receives-IsMatched c token result m h =
      elim (Bool-cases (not (m.token == token) && not (is_exit c))) [
        | inl e ↦ rw e h
        | inr e ↦ rw e (record {
          pending = λ r w q.
              subst (Answers m.token) (some-injective _ _ q)
                (fits (m.token == token) (is_exit c) refl refl e);
          answered = h.answered;
          counted = h.counted;
        })
      ]
    where
      fits :
          (t x : Bool)
          → (m.token == token) ≡ t
          → is_exit c ≡ x
          → (not (m.token == token) && not (is_exit c)) ≡ false
          → (is_exit c ≡ true) ⊎ (token ≡ m.token)
      fits t true p q e = inl q
      fits true false p q e = inr (sym ((==_iff m.token token).0 p))
      fits false false p q e = absurd (ground arith)

  takes-IsMatched :
      (resp : Response R) (m : Mi R)
      → (m.woken ≡ false) ⊎ Answers m.token resp
      → IsMatched m
      → IsMatched (take_resp resp m)
  unfolding take_resp
  takes-IsMatched resp m w h = record {
    pending = λ r f q. cc;
    answered = All-append Matches m.answers _ h.answered (w, tt);
    counted = omega (
      arith,
      h.counted,
      length-append m.answers
          (record { issued = m.token; response = resp; signalled = m.woken } ∷ []),
    );
  }

  Step-IsMatched : {m n : Mi R} → Step m n → IsMatched m → IsMatched n
  unfolding wait_resp
  Step-IsMatched (issues e) h = record {
    pending = λ r w q. cc;
    answered = h.answered;
    counted = h.counted;
  }
  Step-IsMatched {m} (receives c t r) h = receives-IsMatched c t r m h
  Step-IsMatched {m} (wakes resp e w q) h = takes-IsMatched resp m (inr (h.pending resp w q)) h
  Step-IsMatched {m} (wakes_early resp e w q) h = takes-IsMatched resp m (inl w) h

  init-IsMatched : IsMatched (init {R = R})
  unfolding init
  init-IsMatched = record { pending = λ r w q. cc; answered = tt; counted = refl }

  -- However the threads take turns, whatever results arrive and whenever a wait returns without a
  -- signal, each call of `mi_issue_cmd` that returned behind a signal got the result with the token
  -- of its own command, unless gdb ended; of a call whose wait returned without a signal this is not
  -- said; and the token counts the calls that returned.
  pub Reach-IsMatched : {m : Mi R} → Reach (init {R = R}) m → IsMatched m
  Reach-IsMatched here = init-IsMatched
  Reach-IsMatched (next r s) = Step-IsMatched s (Reach-IsMatched r)
