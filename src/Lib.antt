-- ===== src/Lib.antt =====
-- mailkit: what it takes to say how a domain's mail is authenticated, checked.
--
-- The repository is a Go library. Package dnsx is the seam to DNS: names, answers, errors and the
-- resolver interfaces; package dnsx/cache keeps answers. Package spf walks the tree of SPF records
-- of a domain and counts the terms that cost a lookup. Package mailauth parses DMARC records,
-- finds the one that applies to a domain by the DNS tree walk, and decides whether two names are
-- aligned. Package mx reads the mail hosts of a domain, package provider names the company behind a
-- host, and package finding holds what is to be said about a domain. Packages spf, mailauth and mx
-- use a resolver only through the interfaces of dnsx; dnsx also wraps one with a limit of its rate.
--
-- Files, and the code that they model:
--   Prelude   library names, tests on numbers, lists measured by native numbers
--   Text      texts as lists of ASCII bytes, and what the program uses of package strings
--   Dnsx      dnsx/dnsx.go, dnsx/errors.go: Normalize, IsSubdomainOf, Labels, Answer, NotFound,
--             Unanswered, Void. Dnsx/Names and Dnsx/Errors hold proofs. Dnsx/RateLimit is
--             dnsx/ratelimit.go, and Slots, Window, Progress and Through, below it, hold proofs.
--             Dnsx/PublicRes is dnsx/publicres/publicres.go: Query, and in Dnsx/PublicRes/Lookups the
--             lookups on it; Attempts and Answered, beside them, hold proofs. Dnsx/Dnstest is
--             dnsx/dnstest/dnstest.go, a resolver that serves a fixed zone, and what stands below it
--             holds proofs, also of an SPF evaluation over one.
--   Cache     dnsx/cache/cache.go: the entries, and the stretches of Query that hold the lock.
--             Cache/Store, Cache/Bound, Cache/Entries, Cache/Flight, Cache/Fresh, Cache/Query and
--             Cache/Plain hold proofs.
--             Cache/Saved is what it writes out, reads back and exports; the files below it hold
--             proofs. Cache/Wrapped is a cache as the resolver that its clients see, and what stands
--             below it holds proofs of an SPF evaluation through one.
--   Spf       Spf/Terms is spf/terms.go, Spf/Tree is spf/tree.go, Spf/State and Spf/Walk are
--             spf/evaluate.go. Spf/Cost is the reference count, which models no code. Spf/Walk/Machine
--             and Spf/Walk/Steps give the walk as a sequence of steps, Spf/Walk/Route the path to a
--             record as the nodes show it; Count, Bounds, Fuel, Growth, Unusable, Cycles, Tally,
--             Includes and Trace, beside them, hold proofs. Spf/Walk/Alike and Spf/Walk/Agree compare
--             two walks over different resolvers; Spf/Evaluating lists what a run computes
--             with. Spf/Written and the files below it describe the text of a record, and prove
--             what it is read as.
--   Mailauth  Mailauth/Spf, Mailauth/Dkim and Mailauth/Dmarc are the parts of mailauth/records.go,
--             Mailauth/TreeWalk is mailauth/treewalk.go with LookupDMARC, Mailauth/Align is
--             mailauth/align.go. The other files below them hold proofs.
--   Sorting   insertion by a test, which stands for sort.Strings and sort.SliceStable; Sorting/Laws,
--             Sorting/Unique, Sorting/Place and Sorting/Rearranged hold proofs
--   Mx        mx/mx.go; Mx/Order, Mx/Flagged and Mx/Reported hold proofs
--   Provider  provider/provider.go: loading a table. Provider/Match is what a matcher finds, and
--             the other files below it hold proofs.
--   Finding   finding/finding.go; Finding/Order, Finding/Bands and Finding/Render hold
--             proofs. Finding/Codes is finding/codes.go, with proofs in Finding/Codes/Covered.
-- The files named Examples hold runs at concrete values.
--
-- The development names a function `is_subdomain_of` or `lookup_dmarc` where the source has
-- IsSubdomainOf or LookupDMARC; a part of a function that has no name in the source has one here,
-- and is called where the source runs it. A pointer that a method changes is a record that it
-- takes and returns. A resolver is a parameter: for package spf it is a record of functions that
-- answer by the log of all questions put before, for package mailauth a function on a state of its
-- own. So a resolver may answer the same question twice in two ways, unless a theorem says
-- otherwise. An error is a tree of wrapped causes, read as errors.Is and errors.As read it.
--
-- The cache: time is a number of nanoseconds that an operation is given, so it reads the clock
-- once; a map is a list of pairs whose order of visit, which Go leaves open, is an argument where
-- it matters. Goroutines are a step relation: each step is what one of them does while it holds
-- the lock.
--
-- Code from outside is an argument: net.ParseIP as a test of texts, sort.Slice as a function of
-- which Sorting.IsSlice states what package sort documents, the JSON decoder by what it decodes,
-- SHA-256 as a function of texts, and the catalogue of texts behind finding.Renderer. The time of
-- the rate limiter is a number of nanoseconds; the readings of the clock that calls take under its
-- lock are a list in the order of the lock.
--
-- Fuel: `walk` of spf/evaluate.go calls itself through `descend`, with the depth one higher, and is
-- not reached past the depth limit: from depth 0 that is at most one call more than the limit,
-- which is the fuel given. A chain of CNAMEs of dnsx/dnstest takes the code's own bound of 8 hops,
-- and the digits of a number take one more than the number as fuel, while it has at most as many
-- digits as that. All other loops are by structural recursion.
--
-- Not modelled: bytes above 127 in texts, whose case and space Go decides by Unicode; contexts,
-- which are only handed to the resolver, but for the errors of a context that the rate limiter, the
-- client of public resolvers, the zone resolver and a cache's wait read; the wording of PermDetail,
-- which is kept as the value that it is made of; int overflow of the counters of a report, which no
-- record is long enough to reach; the JSON text of what the cache writes and reads; sleeping and
-- the network, of which the rate limiter and the client of dnsx/publicres are modelled down to the
-- timer and the DNS library; the reading of a zone from a file (Load of dnsx/dnstest) and the
-- embedded table of providers; queries of dnsx/publicres that run at once and share its counter.
pub mod Prelude
pub mod Text
pub mod Sorting
pub mod Dnsx
pub mod Cache
pub mod Finding
pub mod Provider
pub mod Mx
pub mod Spf
pub mod Mailauth
