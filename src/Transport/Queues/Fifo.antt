-- ===== src/Transport/Queues/Fifo.antt =====
-- What goes through the queue of the standard output.
use wxdap.Base.{
  Option, ◌≡◌, refl, sym, ap, ◌∙◌, Bool, true, false, not, none, some, List, [], ◌∷◌, ◌++◌, Bytes,
  concat, append_assoc, append-nil, ◌||◌, Option,
}
use wxdap.Protocol.Structs.{is_empty}
use wxdap.Transport.Pipes.{do_read, read_all}
use wxdap.Transport.Sockets.Sending.{IsBeginning}
use wxdap.Transport.Queues.{
  Streams, push, pop, push_read, reader_round, stdout_read, Happening, thread_reads, client_reads,
  goes_down, Step, thread_step, client_step, down_step, Reach, here, next,
}

-- What the thread read of the child's standard output, and what the client got.
abbrev pub output_read : Happening → Bytes
output_read (thread_reads true stdout stderr) = (read_all stdout []).0
output_read (thread_reads false stdout stderr) = []
output_read (client_reads alive result) = []
output_read goes_down = []

abbrev pub output_got : Happening → Bytes
output_got (thread_reads alive stdout stderr) = []
output_got (client_reads alive none) = []
output_got (client_reads alive (some buffer)) = buffer
output_got goes_down = []

abbrev pub all_read : List Happening → Bytes
all_read [] = []
all_read (h ∷ hs) = output_read h ++ all_read hs

abbrev pub all_got : List Happening → Bytes
all_got [] = []
all_got (h ∷ hs) = output_got h ++ all_got hs

all_read-append : (hs ks : List Happening) → all_read (hs ++ ks) ≡ all_read hs ++ all_read ks
all_read-append [] ks = refl
all_read-append (h ∷ hs) ks =
    ap (λ x. output_read h ++ x) (all_read-append hs ks)
    ∙ sym (append_assoc (output_read h) (all_read hs) (all_read ks))

all_got-append : (hs ks : List Happening) → all_got (hs ++ ks) ≡ all_got hs ++ all_got ks
all_got-append [] ks = refl
all_got-append (h ∷ hs) ks =
    ap (λ x. output_got h ++ x) (all_got-append hs ks)
    ∙ sym (append_assoc (output_got h) (all_got hs) (all_got ks))

concat-append : (xs ys : List Bytes) → concat (xs ++ ys) ≡ concat xs ++ concat ys
concat-append [] ys = refl
concat-append (x ∷ xs) ys =
    ap (λ s. x ++ s) (concat-append xs ys) ∙ sym (append_assoc x (concat xs) (concat ys))

concat-push_read : (q : List Bytes) (buff : Bytes) → concat (push_read q buff) ≡ concat q ++ buff
unfolding push_read push
concat-push_read q [] = sym (append-nil (concat q))
concat-push_read q (b ∷ buff) =
    concat-append q ((b ∷ buff) ∷ []) ∙ ap (λ s. concat q ++ s) (append-nil (b ∷ buff))

reader_round-queue :
    (s : Streams) (out err : Bytes)
    → concat (reader_round s (not (is_empty out) || not (is_empty err), out, err)).stdout_queue
      ≡ concat s.stdout_queue ++ out
unfolding reader_round
reader_round-queue s [] [] = sym (append-nil (concat s.stdout_queue))
reader_round-queue s [] (e ∷ err) = concat-push_read s.stdout_queue []
reader_round-queue s (b ∷ out) err = concat-push_read s.stdout_queue (b ∷ out)

-- What the queue holds, or what is left of it.
abbrev pub queued : Option Streams → Bytes
queued none = []
queued (some s) = concat s.stdout_queue

-- What was in the queue and is read is what is got and in the queue; where the process was deleted,
-- what is got is a beginning of it.
abbrev pub IsBalanced : Bytes → Bytes → Option Streams → Type 0
IsBalanced all got none = IsBeginning got all
IsBalanced all got (some t) = all ≡ got ++ concat t.stdout_queue

stdout_read-queue :
    (q errs : List Bytes) (down : Bool)
    → (let s : Streams = record { stdout_queue = q; stderr_queue = errs; shutdown = down } in
        IsBalanced
          (concat q ++ [])
          (output_got (client_reads true (stdout_read true (some s)).0))
          (stdout_read true (some s)).1)
unfolding stdout_read pop
stdout_read-queue [] errs down = refl
stdout_read-queue (m ∷ q) errs down = append-nil (m ++ concat q)

Step-balance :
    {s t : Option Streams} {h : Happening}
    → Step s h t
    → IsBalanced (queued s ++ output_read h) (output_got h) t
Step-balance (thread_step s true stdout stderr running) =
    unfold do_read in sym (reader_round-queue s (read_all stdout []).0 (read_all stderr []).0)
Step-balance (thread_step s false stdout stderr running) =
    unfold do_read reader_round in append-nil (concat s.stdout_queue)
Step-balance (client_step none alive) = unfold stdout_read in ([], refl)
Step-balance (client_step (some s) false) =
    unfold stdout_read in (concat s.stdout_queue, sym (append-nil (concat s.stdout_queue)))
Step-balance (client_step (some s) true) =
    stdout_read-queue s.stdout_queue s.stderr_queue s.shutdown
Step-balance (down_step s) = append-nil (concat s.stdout_queue)

snoc_balance :
    (before r g now R G later : Bytes)
    → before ++ R ≡ G ++ now
    → now ++ r ≡ g ++ later
    → before ++ (R ++ (r ++ [])) ≡ (G ++ (g ++ [])) ++ later
snoc_balance before r g now R G later e f =
    ap (λ x. before ++ (R ++ x)) (append-nil r)
    ∙ sym (append_assoc before R r)
    ∙ ap (λ x. x ++ r) e
    ∙ append_assoc G now r
    ∙ ap (λ x. G ++ x) f
    ∙ sym (append_assoc G g later)
    ∙ ap (λ x. (G ++ x) ++ later) (sym (append-nil g))

snoc-IsBalanced :
    (before R G : Bytes) {t u : Option Streams} {h : Happening}
    → IsBalanced (before ++ R) G t
    → Step t h u
    → IsBalanced (before ++ (R ++ (output_read h ++ []))) (G ++ (output_got h ++ [])) u
snoc-IsBalanced before R G {t = none} (later, e) (client_step none alive) =
    unfold stdout_read in
    (later, ap (λ x. x ++ later) (append-nil G) ∙ e ∙ ap (λ x. before ++ x) (sym (append-nil R)))
snoc-IsBalanced before R G {t = some s} {u = some u} {h = h} e st =
    snoc_balance before (output_read h) (output_got h) (concat s.stdout_queue) R G
      (concat u.stdout_queue) e (Step-balance st)
snoc-IsBalanced before R G {t = some s} {u = none} {h = h} e st =
    let (later, f) = Step-balance st in
    (
      later,
      sym (
          snoc_balance before (output_read h) (output_got h) (concat s.stdout_queue) R G later e
            (sym f)),
    )

-- However the rounds of the thread and the calls of `Read` follow one another, as long as `Read` has
-- not found the child ended, the bytes that the queue of the standard output held and those that the
-- thread read of it since are, in order and each once, the bytes that `Read` gave and those that the
-- queue holds: none is lost, doubled or moved. Once it has, and the process is deleted with its queue,
-- the bytes that `Read` gave, before and after, are a beginning of those.
pub Reach-balance :
    {s : Streams} {t : Option Streams} {hs : List Happening}
    → Reach (some s) hs t
    → IsBalanced (concat s.stdout_queue ++ all_read hs) (all_got hs) t
Reach-balance {s} here = append-nil (concat s.stdout_queue)
Reach-balance {s} (next {hs} {h} {t} {u} r st) =
    rw (all_read-append hs (h ∷ []), all_got-append hs (h ∷ []))
      (snoc-IsBalanced (concat s.stdout_queue) (all_read hs) (all_got hs) (Reach-balance r) st)
