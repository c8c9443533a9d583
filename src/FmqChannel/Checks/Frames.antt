-- ===== src/FmqChannel/Checks/Frames.antt =====
-- src/ConsumerFMQchannel.cxx, DDformatMessage: the incomplete HBFs, told from the packets of all the
-- pages at once.
use mathlib.Core.Bool.{false≢true}
use readout.Prelude.{
  Bool, List, [], ap, arith, false, if-intro, if◌then◌else◌, refl, suc, sym, true, ℕ, ◌&&◌, ◌++◌,
  ◌+◌, ◌==◌, ◌∙◌, ◌∷◌, ◌≡◌,
}
use readout.Rdh.{Rdh}
use readout.FmqChannel.{Page}
use readout.FmqChannel.Packets.{packet_offsets}
use readout.FmqChannel.Checks.{
  HbfChecks, check_hbf_packet, check_hbf_packets, check_last_hb, check_pages, count_incomplete,
  count_packet, enter_hb, initial_checks, no_hb_id,
}

-- The packets of the pages, in order.
pub headers_at : (ℕ → Rdh) → List ℕ → List Rdh
headers_at rdh_at [] = []
headers_at rdh_at (o ∷ os) = rdh_at o ∷ headers_at rdh_at os

pub all_packets : (List ℕ → ℕ → Rdh) → List Page → List Rdh
all_packets rdh_at [] = []
all_packets rdh_at (p ∷ ps) =
    headers_at (rdh_at p.payload) (packet_offsets (rdh_at p.payload) p.header.data_size)
    ++ all_packets rdh_at ps

-- The HBFs: the longest stretches of packets with one orbit. The one that is open comes first, with
-- its first packet apart.
pub heartbeat_frames : Rdh → List Rdh → List Rdh → List (Rdh × List Rdh)
heartbeat_frames h seen [] = (h, seen) ∷ []
heartbeat_frames h seen (k ∷ ks) =
    let same = heartbeat_frames h (seen ++ (k ∷ [])) ks in
    let next = heartbeat_frames k [] ks in
    if k.heartbeat_orbit == h.heartbeat_orbit then same else (h, seen) ∷ next

-- What a complete one is: its stop bits sum to one, the last packet has it, and the counter of the
-- pages increases by one from packet to packet.
pub stop_sum : List Rdh → ℕ
stop_sum [] = 0
stop_sum (h ∷ hs) = h.stop_bit + stop_sum hs

pub last_packet : Rdh → List Rdh → Rdh
last_packet h [] = h
last_packet h (k ∷ ks) = last_packet k ks

pub is_consecutive : Rdh → List Rdh → Bool
is_consecutive h [] = true
is_consecutive h (k ∷ ks) = (k.pages_counter == h.pages_counter + 1) && is_consecutive k ks

pub is_complete : Rdh × List Rdh → Bool
is_complete (h, hs) =
    (stop_sum (h ∷ hs) == 1) && (((last_packet h hs).stop_bit == 1) && is_consecutive h hs)

pub incomplete_frames : List (Rdh × List Rdh) → ℕ
incomplete_frames [] = 0
incomplete_frames (f ∷ fs) = (if is_complete f then 0 else 1) + incomplete_frames fs

pub incomplete_of : List Rdh → ℕ
incomplete_of [] = 0
incomplete_of (h ∷ hs) = incomplete_frames (heartbeat_frames h [] hs)

check_all : List Rdh → HbfChecks → HbfChecks
check_all [] s = s
check_all (h ∷ hs) s = check_all hs (check_hbf_packet true h s)

check_all-append :
    (hs ks : List Rdh) (s : HbfChecks) → check_all (hs ++ ks) s ≡ check_all ks (check_all hs s)
unfolding check_all
check_all-append [] ks s = refl
check_all-append (h ∷ hs) ks s = check_all-append hs ks (check_hbf_packet true h s)

check_packets_lem :
    (rdh_at : ℕ → Rdh) (os : List ℕ) (s : HbfChecks)
    → check_hbf_packets true rdh_at os s ≡ check_all (headers_at rdh_at os) s
unfolding check_hbf_packets check_all headers_at
check_packets_lem rdh_at [] s = refl
check_packets_lem rdh_at (o ∷ os) s =
    check_packets_lem rdh_at os (check_hbf_packet true (rdh_at o) s)

check_pages_lem :
    (rdh_at : List ℕ → ℕ → Rdh) (ps : List Page) (s : HbfChecks)
    → check_pages true rdh_at ps s ≡ check_all (all_packets rdh_at ps) s
unfolding check_pages check_all all_packets
check_pages_lem rdh_at [] s = refl
check_pages_lem rdh_at (p ∷ ps) s =
    let os = packet_offsets (rdh_at p.payload) p.header.data_size in
    check_pages_lem rdh_at ps (check_hbf_packets true (rdh_at p.payload) os s)
    ∙ ap (check_all (all_packets rdh_at ps)) (check_packets_lem (rdh_at p.payload) os s)
    ∙ sym (check_all-append (headers_at (rdh_at p.payload) os) (all_packets rdh_at ps) s)

-- What the counters hold while an HBF is open.
record Holds (s : HbfChecks) (h : Rdh) (seen : List Rdh) : Type 0 where
  orbit : s.last_hb_id ≡ h.heartbeat_orbit
  first : s.is_first ≡ false
  stops : s.stop ≡ stop_sum (h ∷ seen)
  last_stop : s.stop_last ≡ (last_packet h seen).stop_bit
  last_counter : s.pages_counter_last ≡ (last_packet h seen).pages_counter
  ok : s.is_ok ≡ is_consecutive h seen

last_packet-snoc : (h : Rdh) (hs : List Rdh) (k : Rdh) → last_packet h (hs ++ (k ∷ [])) ≡ k
unfolding last_packet
last_packet-snoc h [] k = refl
last_packet-snoc h (x ∷ xs) k = last_packet-snoc x xs k

stop_sum-snoc : (hs : List Rdh) (k : Rdh) → stop_sum (hs ++ (k ∷ [])) ≡ stop_sum hs + k.stop_bit
unfolding stop_sum
stop_sum-snoc [] k = omega arith
stop_sum-snoc (h ∷ hs) k = omega (arith, stop_sum-snoc hs k)

and_assoc : (a b c : Bool) → ((a && b) && c) ≡ (a && (b && c))
and_assoc true b c = refl
and_assoc false b c = refl

and-true : (a : Bool) → (a && true) ≡ a
and-true true = refl
and-true false = refl

is_consecutive-snoc :
    (h : Rdh) (hs : List Rdh) (k : Rdh)
    → is_consecutive h (hs ++ (k ∷ []))
      ≡ (is_consecutive h hs && (k.pages_counter == (last_packet h hs).pages_counter + 1))
unfolding is_consecutive last_packet
is_consecutive-snoc h [] k = and-true (k.pages_counter == h.pages_counter + 1)
is_consecutive-snoc h (x ∷ xs) k =
    rw
      (
        is_consecutive-snoc x xs k,
        and_assoc (x.pages_counter == h.pages_counter + 1) (is_consecutive x xs)
            (k.pages_counter == (last_packet x xs).pages_counter + 1),
      )
      refl

-- A packet of the same orbit extends the HBF.
Holds-same :
    (s : HbfChecks) (h : Rdh) (seen : List Rdh) (k : Rdh)
    → Holds s h seen
    → (k.heartbeat_orbit == s.last_hb_id) ≡ true
    → Holds (check_hbf_packet true k s) h (seen ++ (k ∷ []))
      × ((check_hbf_packet true k s).incomplete ≡ s.incomplete)
unfolding count_packet enter_hb
Holds-same s h seen k w e =
    if-intro
      (λ (t : HbfChecks).
        Holds (count_packet true k t) h (seen ++ (k ∷ []))
        × ((count_packet true k t).incomplete ≡ s.incomplete))
      (k.heartbeat_orbit == s.last_hb_id)
      (λ e'. (
        record {
          orbit = w.orbit;
          first = refl;
          stops = rw (stop_sum-snoc (h ∷ seen) k, w.stops) refl;
          last_stop = rw (last_packet-snoc h seen k) refl;
          last_counter = rw (last_packet-snoc h seen k) refl;
          ok = rw (is_consecutive-snoc h seen k, w.first, w.ok, w.last_counter) refl;
        },
        refl,
      ))
      (λ e'. absurd (false≢true (sym e' ∙ e)))

suc_unless : (c : Bool) (n : ℕ) → (if c then n else suc n) ≡ n + (if c then 0 else 1)
suc_unless c n = ground arith

last_one : (c : Bool) (n : ℕ) → (if c then n else suc n) ≡ n + ((if c then 0 else 1) + 0)
last_one c n = ground arith

-- The packet of another orbit closes it, and opens the next one.
Holds-next :
    (s : HbfChecks) (h : Rdh) (seen : List Rdh) (k : Rdh)
    → Holds s h seen
    → (k.heartbeat_orbit == s.last_hb_id) ≡ false
    → Holds (check_hbf_packet true k s) k []
      × ((check_hbf_packet true k s).incomplete
          ≡ s.incomplete + (if is_complete (h, seen) then 0 else 1))
unfolding count_packet enter_hb check_last_hb is_complete stop_sum last_packet is_consecutive
Holds-next s h seen k w e =
    if-intro
      (λ (t : HbfChecks).
        Holds (count_packet true k t) k []
        × ((count_packet true k t).incomplete
            ≡ s.incomplete + (if is_complete (h, seen) then 0 else 1)))
      (k.heartbeat_orbit == s.last_hb_id) (λ e'. absurd (false≢true (sym e ∙ e')))
      (λ e'.
        rw (w.first, w.stops, w.last_stop, w.ok)
          (
            record {
              orbit = refl;
              first = refl;
              stops = omega arith;
              last_stop = refl;
              last_counter = refl;
              ok = refl;
            },
            suc_unless _ s.incomplete,
          ))

incomplete_frames_lem :
    (hs : List Rdh) (s : HbfChecks) (h : Rdh) (seen : List Rdh)
    → Holds s h seen
    → (check_last_hb true (check_all hs s)).incomplete
      ≡ s.incomplete + incomplete_frames (heartbeat_frames h seen hs)
unfolding check_all heartbeat_frames incomplete_frames check_last_hb is_complete
incomplete_frames_lem [] s h seen w =
    rw (w.first, w.stops, w.last_stop, w.ok) (last_one (is_complete (h, seen)) s.incomplete)
incomplete_frames_lem (k ∷ ks) s h seen w =
    if-intro
      (λ (l : List (Rdh × List Rdh)).
        (check_last_hb true (check_all (k ∷ ks) s)).incomplete ≡ s.incomplete + incomplete_frames l)
      (k.heartbeat_orbit == h.heartbeat_orbit)
      (λ e.
        let (v, i) = Holds-same s h seen k w (rw (w.orbit) e) in
        omega
          (arith, incomplete_frames_lem ks (check_hbf_packet true k s) h (seen ++ (k ∷ [])) v, i))
      (λ e.
        let (v, i) = Holds-next s h seen k w (rw (w.orbit) e) in
        omega (arith, incomplete_frames_lem ks (check_hbf_packet true k s) k [] v, i))

==-eq : (a b : ℕ) → (a == b) ≡ true → a ≡ b
==-eq a b h = ground arith

Holds-initial :
    (h : Rdh)
    → Holds (check_hbf_packet true h initial_checks) h []
      × ((check_hbf_packet true h initial_checks).incomplete ≡ 0)
unfolding enter_hb count_packet check_last_hb stop_sum last_packet is_consecutive
Holds-initial h =
    if-intro
      (λ (t : HbfChecks).
        Holds (count_packet true h t) h [] × ((count_packet true h t).incomplete ≡ 0))
      (h.heartbeat_orbit == no_hb_id)
      (λ e. (
        record {
          orbit = sym (==-eq h.heartbeat_orbit no_hb_id e);
          first = refl;
          stops = omega arith;
          last_stop = refl;
          last_counter = refl;
          ok = refl;
        },
        refl,
      ))
      (λ e. (
        record {
          orbit = refl;
          first = refl;
          stops = omega arith;
          last_stop = refl;
          last_counter = refl;
          ok = refl;
        },
        refl,
      ))

incomplete_of_lem :
    (hs : List Rdh)
    → (check_last_hb true (check_all hs initial_checks)).incomplete ≡ incomplete_of hs
unfolding check_all incomplete_of check_last_hb
incomplete_of_lem [] = refl
incomplete_of_lem (h ∷ hs) =
    let (w, i) = Holds-initial h in
    omega (arith, incomplete_frames_lem hs (check_hbf_packet true h initial_checks) h [] w, i)

-- With the checks on, the HBFs that count as incomplete are those of the packets of all the pages
-- whose stop bits do not sum to one, that do not end with a stop bit, or whose counter of the pages
-- does not increase by one from packet to packet.
pub count_incomplete_lem :
    (rdh_at : List ℕ → ℕ → Rdh) (ps : List Page)
    → count_incomplete true rdh_at ps ≡ incomplete_of (all_packets rdh_at ps)
unfolding count_incomplete
count_incomplete_lem rdh_at ps =
    ap (λ s. (check_last_hb true s).incomplete) (check_pages_lem rdh_at ps initial_checks)
    ∙ incomplete_of_lem (all_packets rdh_at ps)
