-- ===== src/Transport/Tests.antt =====
-- Destinations and quoted texts, and the theorems at them.
use w17ctl.Base.{codes, some, ◌≡◌}
use w17ctl.Transport.{shell_quote}
use w17ctl.Transport.Quote.{read_word, outside, read_word-shell_quote}

read_word-shell_quote_example :
    read_word outside (shell_quote (codes "it's; rm -rf \"x\"")) ≡ some (codes "it's; rm -rf \"x\"")
read_word-shell_quote_example = read_word-shell_quote (codes "it's; rm -rf \"x\"")
