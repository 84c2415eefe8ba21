-- ===== src/Tests/Pipeline.antt =====
-- The pipeline after one GELF message has gone through it.
use yaffle.Base.{some, ℕ, refl, [], ◌∷◌, Bytes, codes, arith}
use yaffle.Gelf.Crates.{GelfMessage}
use yaffle.Gelf.Chunks.Size.{partials_size}
use yaffle.Gelf.Packet.{classify}
use yaffle.Gelf.Parse.{parse_packet, parse_type}
use yaffle.Gelf.RecvLoop.{Loop, start, on_packet, forwarded}
use yaffle.Schema.Convert.{number, pos}
use yaffle.Server.Pipeline.{
  Pipeline, Reach, here, next, initial, gelf_sends, takes_gelf, gives_at_timeout, from_gelf_pipe,
}
use yaffle.Server.Pipeline.InOrder.{IsInOrder, Reach-IsInOrder}
use yaffle.Server.Pipeline.Delivered.{IsDrained}
use yaffle.Tests.Buffers.{crates}
use yaffle.Tests.Nom.{readers, calendar}
use yaffle.Tests.Schema.{naturals}

abbrev pub hi : GelfMessage ℕ
hi = record { version = []; host = []; short_message = codes "hi"; other = [] }

abbrev pub packet : Bytes
packet = codes "{hi"

abbrev pub after_hi : Loop crates ℕ
after_hi = record (on_packet crates ℕ (start crates ℕ) packet 3).1 { sent = (4, hi) ∷ [] }

abbrev pub Pipe : Type 0
Pipe = Pipeline crates readers calendar naturals ℕ (λ t. some (pos 5000)) number

abbrev no_messages : Pipe
no_messages = initial crates readers calendar naturals ℕ (λ t. some (pos 5000)) number

abbrev pub sent_hi : Pipe
sent_hi = record no_messages { gelf_loop = after_hi; gelf_pipe = (4, hi) ∷ [] }

abbrev pub took_hi : Pipe
took_hi = record sent_hi {
  gelf_pipe = [];
  chunk =
      from_gelf_pipe crates readers calendar naturals ℕ (λ t. some (pos 5000)) number (4, hi) ∷ [];
}

abbrev pub gave_hi : Pipe
gave_hi = record took_hi { chunk = []; batches = took_hi.chunk ∷ [] }

gave_hi-Reach : Reach crates readers calendar naturals ℕ (λ t. some (pos 5000)) number gave_hi
unfolding on_packet parse_packet classify parse_type partials_size
gave_hi-Reach =
    next
      (next (next here (gelf_sends (4, hi) (forwarded packet 3 4 hi refl) refl (omega arith)))
        (takes_gelf (4, hi) [] refl (omega arith)))
      (gives_at_timeout (λ e. cc e))

Reach-IsInOrder_example :
    IsInOrder crates readers calendar naturals ℕ (λ t. some (pos 5000)) number gave_hi
Reach-IsInOrder_example =
    Reach-IsInOrder crates readers calendar naturals ℕ (λ t. some (pos 5000)) number gave_hi-Reach

pub gave_hi-IsDrained :
    IsDrained crates readers calendar naturals ℕ (λ t. some (pos 5000)) number gave_hi
gave_hi-IsDrained = record { no_gelf = refl; no_syslog = refl; no_chunk = refl }
