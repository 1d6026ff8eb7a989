-- ===== src/Capture/Start.antt =====
-- src/capture/packet_capture.cpp, `PacketCapture::start`: the queue is opened, the rules are installed, the
-- loop runs, and both are taken down. The answers of the library are inputs, as in the source's module,
-- the runs of iptables a program, and a loop that waits on has no result.
pub mod Tidy
mod Tests
use ips_with_ai.Prelude.{
  ℕ, ◌<◌, ◌≡◌, refl, Bool, true, false, ◌&&◌, not, Option, none, some, List, if◌then◌else◌, arith,
  Bool-cases, inl, inr, ap, ◌∙◌,
}
use ips_with_ai.Common.Clock.{TimePoint}
use ips_with_ai.Capture.Firewall.{
  Program, pure, ◌>>=◌, Command, Exit, Guard, new_guard, install, uninstall,
}
use ips_with_ai.Capture.Firewall.Rules.{
  Rules, no_rules, installed_rules, Documented, Ensures, Ensures-bind, Ensures-weaken, exec-Ensures,
  Ends,
}
use ips_with_ai.Capture.Firewall.Outcomes.{Installs, Cleared, after_install, install_clean-Installs}
use ips_with_ai.Capture.Source.{
  PacketSource, new_source, Opening, Closing, open_source, close, loop, Turn, Outcome, ended,
  blocked,
}

pub record Surroundings : Type 0 where
  pub opening : Opening
  pub failed_closing : Closing
  pub closing : Closing
  pub start : TimePoint
  pub log_start : TimePoint
  pub turns : List Turn

pub record Started : Type 0 where
  pub source : PacketSource
  pub firewall : Guard
  pub result : Option Bool

-- `start` once the loop has come to `outcome`.
unfoldable pub finish_capture : ℕ → Surroundings → PacketSource → Guard → Outcome → Program Started
finish_capture fuel x s g (blocked l) = pure (record { source = s; firewall = g; result = none })
finish_capture fuel x s g (ended loop_ok) = do
  u ← uninstall fuel g
  let c = close s x.closing
  pure (record { source = c.0; firewall = u.0; result = some (loop_ok && (u.1 && c.1)) })

unfoldable pub start_capture : ℕ → Surroundings → PacketSource → Guard → Program Started
start_capture fuel x s g =
    let o = open_source s x.opening x.failed_closing in
    if not o.1 then pure (record { source = o.0; firewall = g; result = some false }) else (do
      i ← install fuel g
      let l = loop true o.0 x.start x.log_start x.turns
      if not i.1
          then pure
              (record { source = (close o.0 x.closing).0; firewall = i.0; result = some false })
          else finish_capture fuel x l.0 i.0 l.2)
