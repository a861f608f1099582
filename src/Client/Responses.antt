-- ===== src/Client/Responses.antt =====
-- What each reply means to the client, as a description beside `Client::receive`.
use r9p.Base.{ℕ, ◌≤◌}
use r9p.Message.{RMessage}
use r9p.Codec.{max_iounit}
use r9p.Client.Replies.{Completion, ClientResponse}

-- Every reply but an Rversion.
abbrev pub IsReply : RMessage → Type 0
IsReply (RMessage.version _ _ _) = ⊥
IsReply r = Unit {0}

-- What a reply means: an error with its text, or the completion of its type with its fields.
abbrev pub response_of : RMessage → ClientResponse
response_of (RMessage.version tag msize version) =
    ClientResponse.completion tag (Completion.version msize version)
response_of (RMessage.error tag ename) = ClientResponse.error tag ename
response_of (RMessage.attach tag qid) = ClientResponse.completion tag (Completion.attach qid)
response_of (RMessage.auth tag aqid) = ClientResponse.completion tag (Completion.auth aqid)
response_of (RMessage.flush tag) = ClientResponse.completion tag Completion.flush
response_of (RMessage.walk tag qids) = ClientResponse.completion tag (Completion.walk qids)
response_of (RMessage.open_ tag qid iounit) =
    ClientResponse.completion tag (Completion.open_ qid iounit)
response_of (RMessage.create tag qid iounit) =
    ClientResponse.completion tag (Completion.create qid iounit)
response_of (RMessage.read tag payload) = ClientResponse.completion tag (Completion.read payload)
response_of (RMessage.write tag count) = ClientResponse.completion tag (Completion.write count)
response_of (RMessage.clunk tag) = ClientResponse.completion tag Completion.clunk
response_of (RMessage.remove tag) = ClientResponse.completion tag Completion.remove
response_of (RMessage.stat tag entry) = ClientResponse.completion tag (Completion.stat entry)
response_of (RMessage.wstat tag) = ClientResponse.completion tag Completion.wstat
response_of (RMessage.rename_at tag) = ClientResponse.completion tag Completion.rename_at
response_of (RMessage.referrals tag entries) =
    ClientResponse.completion tag (Completion.referrals entries)

-- An I/O unit within the message size.
abbrev pub FitsIounit : ℕ → RMessage → Type 0
FitsIounit msize (RMessage.open_ _ _ iounit) = iounit ≤ max_iounit msize
FitsIounit msize (RMessage.create _ _ iounit) = iounit ≤ max_iounit msize
FitsIounit msize r = Unit {0}
