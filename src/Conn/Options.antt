-- ===== src/Conn/Options.antt =====
-- parse_options of tas_nic/slow/tcp.c, the slow path's copy of tcp_parse_options with the MSS option.
-- `opt` are the bytes behind the TCP header; the loop runs on fuel.
use tas_smartnic.Prelude.{
  inr, inl, Bool-cases, ◌%◌, sub64, ◌^◌, some, none, ◌^◌, sub64, ◌%◌, ◌||◌, ◌-◌, ltb, ◌==◌, ◌*◌,
  leb, sub32, if◌then◌else◌, arith, ◌≡◌, u16, ◌+◌, Option, ℕ, zero, suc, refl,
}
use tas_smartnic.Tcp.Options.{parsed, Pass, stop, go, option_pass, scan_options, tcp_parse_options}

-- struct tcp_opts: the positions of the options.
pub record Opts : Type 0 where
  pub mss : Option ℕ
  pub ts : Option ℕ

pub data Answer : Type 0 where
  ok : Opts → Answer
  malformed : Answer
  out_of_fuel : Answer

-- The outcome of one pass of the loop.
pub data Turn : Type 0 where
  return : Answer → Turn
  again : (off : ℕ) → Opts → Turn

unfoldable pub parse_pass : (ℕ → ℕ) → ℕ → ℕ → Opts → Turn
parse_pass opt opts_len off opts =
    let kind : ℕ = opt off in
    let opt_len : ℕ = opt (off + 1) in
    if leb opts_len off
    then return (ok opts)
    else if kind == 0
    then return (ok opts)
    else if kind == 1
    then again (u16 (off + 1)) opts
    else if ltb ((opts_len - off) % 2 ^ 8) 2
    then return malformed
    else if kind == 2
    then if opt_len == 4
      then again (u16 (off + opt_len)) (record opts { mss = some off })
      else return malformed
    else if kind == 8
    then if opt_len == 10
      then again (u16 (off + opt_len)) (record opts { ts = some off })
      else return malformed
    else again (u16 (off + opt_len)) opts

unfoldable pub parse_scan : ℕ → (ℕ → ℕ) → ℕ → ℕ → Opts → Answer
parse_scan zero opt opts_len off opts = out_of_fuel
parse_scan (suc fuel) opt opts_len off opts = elim (parse_pass opt opts_len off opts) [
  | return r ↦ r
  | again off' opts' ↦ parse_scan fuel opt opts_len off' opts'
]

-- parse_options, for a packet of `len` bytes and a TCP header of `hdrlen` words.
unfoldable pub parse_options : ℕ → (ℕ → ℕ) → (hdrlen len : ℕ) → Answer
parse_options fuel opt hdrlen len =
    let opts_len : ℕ = u16 (sub32 (hdrlen * 4) 20) in
    if ltb hdrlen 5 || ltb (sub64 len 54) opts_len
    then malformed
    else parse_scan fuel opt opts_len 0 (record { mss = none; ts = none })

-- The fast path's pass does what the slow path's does, where that one does not stop with an error.
abbrev Simulated : Turn → Pass → Type 0
Simulated (return (ok opts)) p = p ≡ stop (parsed opts.ts)
Simulated (return malformed) p = Unit
Simulated (return out_of_fuel) p = Unit
Simulated (again off opts) p = p ≡ go off opts.ts

pass-Simulated :
    (opt : ℕ → ℕ) (opts_len off : ℕ) (opts : Opts)
    → Simulated (parse_pass opt opts_len off opts) (option_pass opt opts_len off opts.ts)
unfolding parse_pass option_pass
pass-Simulated opt opts_len off opts = ground arith

-- The loops agree behind a pass, if they agree on what is left.
follow :
    (fuel : ℕ) (opt : ℕ → ℕ) (opts_len : ℕ) (found : Opts)
    → ((off : ℕ) (opts : Opts)
        → parse_scan fuel opt opts_len off opts ≡ ok found
        → scan_options fuel opt opts_len off opts.ts ≡ parsed found.ts)
    → (t : Turn) (q : Pass) → Simulated t q
    → elim t [ return r ↦ r | again off' opts' ↦ parse_scan fuel opt opts_len off' opts' ]
      ≡ ok found
    → elim q [ stop r ↦ r | go off' ts' ↦ scan_options fuel opt opts_len off' ts' ]
      ≡ parsed found.ts
follow fuel opt opts_len found rest (return (ok opts)) q sim e =
    let same : opts ≡ found = cc in rw (sim, same) refl
follow fuel opt opts_len found rest (return malformed) q sim e = cc
follow fuel opt opts_len found rest (return out_of_fuel) q sim e = cc
follow fuel opt opts_len found rest (again off opts) q sim e = rw sim (rest off opts e)

scan_agrees :
    (fuel : ℕ) (opt : ℕ → ℕ) (opts_len : ℕ) (found : Opts) (off : ℕ) (opts : Opts)
    → parse_scan fuel opt opts_len off opts ≡ ok found
    → scan_options fuel opt opts_len off opts.ts ≡ parsed found.ts
unfolding parse_scan scan_options
scan_agrees zero opt opts_len found off opts e = cc
scan_agrees (suc fuel) opt opts_len found off opts e =
    follow fuel opt opts_len found (λ o os. scan_agrees fuel opt opts_len found o os) _ _
      (pass-Simulated opt opts_len off opts) e

-- Where the slow path's parser of TCP options accepts a packet, the fast path's accepts it too, after as
-- many passes, and finds the same timestamp option; the slow path's also refuses an MSS option whose
-- length is not 4.
pub parse_options-tcp_parse_options :
    (fuel : ℕ) (opt : ℕ → ℕ) (hdrlen len : ℕ) (found : Opts)
    → parse_options fuel opt hdrlen len ≡ ok found
    → tcp_parse_options fuel opt hdrlen len ≡ parsed found.ts
unfolding parse_options tcp_parse_options
parse_options-tcp_parse_options fuel opt hdrlen len found e =
    elim (Bool-cases (ltb hdrlen 5 || ltb (sub64 len 54) (u16 (sub32 (hdrlen * 4) 20)))) [
      | inl refused ↦ absurd (cc (rw refused at e))
      | inr fine ↦ rw fine (scan_agrees fuel opt _ found 0 _ (rw fine at e))
    ]
