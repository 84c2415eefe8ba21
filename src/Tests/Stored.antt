-- ===== src/Tests/Stored.antt =====
-- One GELF message through the pipeline, with conversions whose numbers fit their types.
use yaffle.Base.{some, ℕ, ◌^◌, ◌<◌, refl, [], ◌∷◌, All, codes, arith}
use yaffle.Gelf.Chunks.Size.{partials_size}
use yaffle.Gelf.Packet.{classify}
use yaffle.Gelf.Parse.{parse_packet, parse_type}
use yaffle.Gelf.RecvLoop.{on_packet, forwarded}
use yaffle.Schema.Convert.{number, pos}
use yaffle.Server.Pipeline.{
  Pipeline, Reach, here, next, gelf_sends, takes_gelf, gives_at_timeout, from_gelf_pipe,
}
use yaffle.Server.Pipeline.Stored.{PostsStored, Reach-PostsStored}
use yaffle.Tests.Buffers.{crates}
use yaffle.Tests.Nom.{readers, calendar}
use yaffle.Tests.Pipeline.{after_hi, hi, packet}
use yaffle.Tests.Types.{clamped, clamped-IsTyped}

abbrev posted : Pipeline crates readers calendar clamped ℕ (λ t. some (pos 5000)) number
posted = record {
  gelf_loop = after_hi;
  gelf_pipe = [];
  syslog_sent = [];
  syslog_pipe = [];
  chunk = [];
  batches =
      (from_gelf_pipe crates readers calendar clamped ℕ (λ t. some (pos 5000)) number (4, hi) ∷ [])
      ∷ [];
}

posted-Reach : Reach crates readers calendar clamped ℕ (λ t. some (pos 5000)) number posted
unfolding on_packet parse_packet classify parse_type partials_size
posted-Reach =
    next
      (next (next here (gelf_sends (4, hi) (forwarded packet 3 4 hi refl) refl (omega arith)))
        (takes_gelf (4, hi) [] refl (omega arith)))
      (gives_at_timeout (λ e. cc e))

small : 5000 < 2 ^ 63
small = omega arith

Reach-PostsStored_example :
    All
      (PostsStored crates readers calendar clamped clamped-IsTyped ℕ
        (λ t. some (pos 5000))
        (λ t. small)
        number
        (λ a. a ∷ [])
        (λ d. codes "{}"))
      posted.batches
Reach-PostsStored_example =
    Reach-PostsStored crates readers calendar clamped clamped-IsTyped ℕ (λ t. some (pos 5000))
      (λ t. small) number (λ a. a ∷ []) (λ d. codes "{}") posted-Reach
