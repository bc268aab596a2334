-- ===== src/Sysmsg/Clients.antt =====
-- sys/msg/sysmsg.c: subscriptions and filters of clients, and broadcasts. A client is known by its
-- process ID. `for_each_bit` goes through the bits of a 32-bit word from the lowest.
use sneks.Base.{
  ℕ, ◌+◌, ◌-◌, ◌*◌, ◌^◌, Bool, true, false, not, ◌&&◌, ◌||◌, Option, none, some, List, [], ◌∷◌,
  ◌++◌, ℤ, pos, negsuc, ◌==◌, leb, if◌then◌else◌, update, bit_and, bit_or, compl, length, replicate,
  Ends, abort, returns,
}
use sneks.Sysmsg.{
  MsgClient, Server, for_each_bit, filter_size, filter_pass, add_labels, remove_labels,
}

-- rmsub() and addsub().
unfoldable pub rmsub : (pid bit : ℕ) → List (ℕ × ℕ) → List (ℕ × ℕ)
rmsub pid bit [] = []
rmsub pid bit ((b, c) ∷ subs) =
    let rest = rmsub pid bit subs in if b == bit && (c == pid) then rest else (b, c) ∷ rest

unfoldable pub addsub : (pid bit : ℕ) → List (ℕ × ℕ) → List (ℕ × ℕ)
addsub pid bit subs = subs ++ ((bit, pid) ∷ [])

abbrev pub new_client : MsgClient
new_client = record { subs_mask = 0; filter_mask = 0; n_filters = 0; filter = none }

abbrev pub client_or_new : Option MsgClient → MsgClient
client_or_new none = new_client
client_or_new (some c) = c

-- setmask() of a client that is known or made: the old mask and the server.
unfoldable pub change_mask : (pid or_bits and_bits : ℕ) → MsgClient → Server → ℕ × Server
change_mask pid or_bits and_bits c s =
    let mask = bit_or (bit_and c.subs_mask and_bits) or_bits in
    let removed = bit_and c.subs_mask (compl 32 mask) in
    let added = bit_and (compl 32 c.subs_mask) mask in
    (
      c.subs_mask,
      record {
        clients = update s.clients pid (
            some (record c {
              subs_mask = mask;
              filter_mask = bit_and c.filter_mask (compl 32 removed);
            }));
        subs = for_each_bit (addsub pid) added 32 0 (for_each_bit (rmsub pid) removed 32 0 s.subs);
      },
    )

-- setmask(), where the allocations succeed.
unfoldable pub setmask_of : (pid or_bits and_bits : ℕ) → Option MsgClient → Server → ℕ × Server
setmask_of pid or_bits and_bits none s =
    if and_bits == 0 && (or_bits == 0)
    then (0, s)
    else change_mask pid or_bits and_bits new_client s
setmask_of pid or_bits and_bits (some c) s = change_mask pid or_bits and_bits c s

unfoldable pub setmask : (pid or_bits and_bits : ℕ) → Server → ℕ × Server
setmask pid or_bits and_bits s = setmask_of pid or_bits and_bits (s.clients pid) s

-- `__builtin_popcount`, over `n` bits from `b` on.
unfoldable pub popcount : (mask n b : ℕ) → ℕ
popcount mask n b = for_each_bit (λ (bit k : ℕ). k + 1) mask n b 0

-- The subscriptions of one bit that a broadcast considers, in the order of the table.
unfoldable pub gather_bit : (ℕ → Option MsgClient) → (maskn bit : ℕ) → List (ℕ × ℕ) → List ℕ
gather_bit clients maskn bit [] = []
gather_bit clients maskn bit ((b, pid) ∷ subs) =
    let rest = gather_bit clients maskn bit subs in
    if b == bit && (bit_and (client_or_new (clients pid)).subs_mask maskn == 0)
    then pid ∷ rest
    else rest

unfoldable pub gather : (maskp maskn : ℕ) → Server → List ℕ
gather maskp maskn s =
    for_each_bit (λ (bit : ℕ) (recs : List ℕ). recs ++ gather_bit s.clients maskn bit s.subs) maskp
      32 0 []

-- qsort() by process ID.
unfoldable pub insert_pid : ℕ → List ℕ → List ℕ
insert_pid p [] = p ∷ []
insert_pid p (q ∷ qs) = let rest = insert_pid p qs in if leb p q then p ∷ q ∷ qs else q ∷ rest

unfoldable pub qsort : List ℕ → List ℕ
qsort [] = []
qsort (p ∷ ps) = insert_pid p (qsort ps)

-- The loop that keeps the records that differ from the one before.
unfoldable pub uniq_after : ℕ → List ℕ → List ℕ
uniq_after last [] = []
uniq_after last (p ∷ ps) = let rest = uniq_after p ps in if last == p then rest else p ∷ rest

unfoldable pub uniq : List ℕ → List ℕ
uniq [] = []
uniq (p ∷ ps) = p ∷ uniq_after p ps

-- The clients that impl_broadcast() comes to, in order.
unfoldable pub recipients : (maskp maskn : ℕ) → Server → List ℕ
recipients maskp maskn s = uniq (qsort (gather maskp maskn s))

module _ (int_hash : ℕ → ℕ) (filter_salt : ℕ → ℕ) where
  -- The filter of a client, or a new one, of a client whose n_filters is 0: a new client's is, and
  -- rm_filter() frees the filter only then. The assert of this is left out.
  abbrev pub filter_or_new : Option (List ℕ) → List ℕ
  filter_or_new none = replicate filter_size 0
  filter_or_new (some f) = f

  unfoldable pub add_to : (mask : ℕ) → List ℕ → MsgClient → MsgClient
  add_to mask labels c = record c {
    filter = some (add_labels int_hash filter_salt mask labels (filter_or_new c.filter));
    filter_mask = if length labels == 0 then c.filter_mask else bit_or c.filter_mask mask;
    n_filters = c.n_filters + length labels * popcount mask 32 0;
  }

  -- add_filter(), where the allocation succeeds.
  unfoldable pub add_filter_of : (pid mask : ℕ) → List ℕ → Option MsgClient → Server → Server
  add_filter_of pid mask labels none s = s
  add_filter_of pid mask labels (some c) s = record s {
    clients = update s.clients pid (some (add_to mask labels c));
  }

  unfoldable pub add_filter : (pid mask : ℕ) → List ℕ → Server → Server
  add_filter pid mask labels s = add_filter_of pid mask labels (s.clients pid) s

  -- What rm_filter() makes of a client with a filter, and the filter and count from its loops.
  unfoldable pub remove_from : MsgClient → List ℕ × ℕ → Ends MsgClient
  remove_from c (filter, removed) =
      if leb removed c.n_filters
      then returns (record c {
        n_filters = c.n_filters - removed;
        filter = if c.n_filters - removed == 0 then none else some filter;
      })
      else abort

  unfoldable pub store_client : (pid : ℕ) → Ends MsgClient → Server → Ends Server
  store_client pid abort s = abort
  store_client pid (returns c) s = returns (record s { clients = update s.clients pid (some c) })

  unfoldable pub rm_filter_by :
      (pid mask : ℕ) → List ℕ → MsgClient → Option (List ℕ) → Server → Ends Server
  rm_filter_by pid mask labels c none s = returns s
  rm_filter_by pid mask labels c (some filter) s =
      store_client pid (remove_from c (remove_labels int_hash filter_salt mask labels (filter, 0)))
        s

  unfoldable pub rm_filter_of : (pid mask : ℕ) → List ℕ → Option MsgClient → Server → Ends Server
  rm_filter_of pid mask labels none s = returns s
  rm_filter_of pid mask labels (some c) s = rm_filter_by pid mask labels c c.filter s

  -- rm_filter().
  unfoldable pub rm_filter : (pid mask : ℕ) → List ℕ → Server → Ends Server
  rm_filter pid mask labels s = rm_filter_of pid mask labels (s.clients pid) s

  -- Whether impl_broadcast() sends to a client that it comes to.
  unfoldable pub wants : (maskp hash : ℕ) → MsgClient → Bool
  wants maskp hash c =
      not (bit_and c.filter_mask maskp == maskp)
      || filter_pass int_hash filter_salt c.filter (bit_and maskp c.filter_mask) hash

  unfoldable pub delays : ℤ → Bool
  delays (pos n) = n == 1
  delays (negsuc n) = false

  -- The loop of impl_broadcast() over the clients, whose answers are given, and which change
  -- nothing meanwhile: those sent to, and whether none of them delays.
  unfoldable pub send_all : (ℕ → ℤ) → (maskp hash : ℕ) → Server → List ℕ → List ℕ × Bool
  send_all answers maskp hash s [] = ([], true)
  send_all answers maskp hash s (pid ∷ pids) =
      let rest = send_all answers maskp hash s pids in
      if wants maskp hash (client_or_new (s.clients pid))
      then (pid ∷ rest.0, not (delays (answers pid)) && rest.1)
      else rest

  -- impl_broadcast() of a message whose first word is `label`: the clients sent to, and its result.
  unfoldable pub impl_broadcast : (ℕ → ℤ) → (maskp maskn label : ℕ) → Server → List ℕ × Bool
  impl_broadcast answers maskp maskn label s =
      if maskp == 0 || (maskn == 2 ^ 32 - 1)
      then ([], true)
      else send_all answers maskp (int_hash label) s (recipients maskp maskn s)

  unfoldable pub after_removal : Ends Server → Ends (ℤ × Server)
  after_removal abort = abort
  after_removal (returns s) = returns (pos 0, s)

  -- A call that a client makes while a broadcast is sent to it, by its message registers.
  unfoldable pub recursive_sysmsg_call :
      (pid : ℕ) → (mr1 mr2 : ℕ) → (labels : List ℕ) → Server → Ends (ℤ × Server)
  recursive_sysmsg_call pid mr1 mr2 labels s =
      if mr1 == 1
      then (let set = setmask pid mr1 mr2 s in returns (pos set.0, set.1))
      else if mr1 == 2
      then returns (negsuc 10, s)
      else if mr1 == 3
      then returns (pos 0, add_filter pid mr2 labels s)
      else if mr1 == 4
      then after_removal (rm_filter pid mr2 labels s)
      else returns (negsuc 37, s)
