-- ===== src/Agents/Swe/Tail.antt =====
-- How long the tail of the agent's log is, in the reports that quote it.
use self_healing_system_tfg.Base.{
  ℕ, ◌+◌, ◌-◌, ◌*◌, ◌≤◌, ◌≡◌, refl, List, [], ◌∷◌, ◌++◌, arith, ltb, length, take, length-append,
  length-take-le, Bool-cases, inl, inr,
}
use self_healing_system_tfg.Python.Text.{Text, text, strip, join}
use self_healing_system_tfg.Agents.Focus.{reversed}
use self_healing_system_tfg.Agents.Swe.{
  AgentMessage, chunk_of, role_or_mark, tail_chunks, format_trajectory_tail, trajectory_tail_bytes,
}

-- The lengths of the texts, with one more for each.
abbrev weight : List Text → ℕ
weight [] = 0
weight (t ∷ ts) = length t + 1 + weight ts

weight-append : (ts us : List Text) → weight (ts ++ us) ≡ weight ts + weight us
weight-append [] us = omega arith
weight-append (t ∷ ts) us = omega (arith, weight-append ts us)

weight-reversed : (ts : List Text) → weight (reversed ts) ≡ weight ts
weight-reversed [] = refl
weight-reversed (t ∷ ts) = omega (arith, weight-append (reversed ts) (t ∷ []), weight-reversed ts)

join-length : (ts : List Text) → length (join (text "\n") ts) ≤ weight ts - 1
unfolding join text
join-length [] = omega arith
join-length (t ∷ []) = omega arith
join-length (t ∷ s ∷ ts) =
    let rest = join (text "\n") (s ∷ ts) in
    let e : length (join (text "\n") (t ∷ s ∷ ts)) ≡ length (t ++ text "\n" ++ rest) = refl in
    let k = length-append (t ++ text "\n") rest in
    let l = length-append t (text "\n") in omega (arith, join-length (s ∷ ts), e, k, l)

chunk-length : (m : AgentMessage) → 4 ≤ length (chunk_of m)
unfolding chunk_of text
chunk-length m =
    let named = role_or_mark m.role in
    let body = strip m.content in
    let front = text "[" ++ named ++ text "]\n" in
    let e : length (chunk_of m) ≡ length (front ++ body ++ text "\n") = refl in
    omega (
      arith,
      e,
      length-append (front ++ body) (text "\n"),
      length-append front body,
      length-append (text "[" ++ named) (text "]\n"),
      length-append (text "[") named,
    )

mark-length : length (text "\n... (truncated)\n") ≡ 17
unfolding text
mark-length = refl

-- Four parts in five of a chunk and its separator are paid by the budget.
tail_chunks-weight :
    (budget : ℕ) (ms : List AgentMessage) → 4 * weight (tail_chunks budget ms) ≤ 5 * budget + 72
unfolding tail_chunks
tail_chunks-weight budget [] = omega arith
tail_chunks-weight budget (m ∷ ms) = elim (Bool-cases (ltb budget (length (chunk_of m)))) [
  | inl over ↦
      let mark = text "\n... (truncated)\n" in
      let cut = take budget (chunk_of m) in
      rw over
        (omega (arith, length-append cut mark, mark-length, length-take-le budget (chunk_of m)))
  | inr fits ↦
      rw fits
        (ground (arith, fits, chunk-length m, tail_chunks-weight (budget - length (chunk_of m)) ms))
]

-- The tail of a trajectory of any length has at most 2577 characters.
pub format_trajectory_tail-length :
    (messages : List AgentMessage) → length (format_trajectory_tail messages) ≤ 2577
unfolding format_trajectory_tail
format_trajectory_tail-length messages =
    let chunks = tail_chunks trajectory_tail_bytes (reversed messages) in
    omega (
      arith,
      join-length (reversed chunks),
      weight-reversed chunks,
      tail_chunks-weight trajectory_tail_bytes (reversed messages),
    )
