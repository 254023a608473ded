-- ===== src/Console/PortNames/From515.antt =====
-- The cases of getPortName (ConsoleTest/portNames.cpp) for the ports from 515 to 656.
use Prim.Native.String.{String}
use watchfirewall.Prelude.{ℕ, List, [], ◌∷◌}

unfoldable pub names_from_515 : List (ℕ × String)
names_from_515 =
    (515, "LPR.")
    ∷ (516, "videotex.")
    ∷ (
      517,
      "Like tenex link but across machine - doesn't use link protocol. A rendezvous port establishes a tcp connection.",
    )
    ∷ (518, "ntalk.")
    ∷ (519, "unixtime.")
    ∷ (520, "RIP, Routing Information Protocol. Extended file name server.")
    ∷ (521, "RIPng.")
    ∷ (522, "ULP.")
    ∷ (523, "IBM-DB2.")
    ∷ (524, "NCP.")
    ∷ (525, "timeserver.")
    ∷ (526, "newdate.")
    ∷ (527, "Stock IXChange.")
    ∷ (528, "Customer IXChange.")
    ∷ (529, "IRC-SERV.")
    ∷ (530, "rpc.")
    ∷ (531, "chat.")
    ∷ (532, "readnews.")
    ∷ (533, "emergency broadcasts.")
    ∷ (534, "MegaMedia Admin.")
    ∷ (535, "iiop.")
    ∷ (536, "opalis-rdv.")
    ∷ (537, "Networked Media Streaming Protocol.")
    ∷ (538, "gdomap.")
    ∷ (539, "Apertus Technologies Load Determination.")
    ∷ (540, "uucpd.")
    ∷ (541, "uucp-rlogin. ")
    ∷ (542, "commerce.")
    ∷ (543, "klogin.")
    ∷ (544, "krcmd.")
    ∷ (545, "appleqtcsrvr.")
    ∷ (546, "DHCPv6 client.")
    ∷ (547, "DHCPv6 server.")
    ∷ (548, "AFP over TCP.")
    ∷ (549, "IDFP.")
    ∷ (550, "new-who.")
    ∷ (551, "cybercash.")
    ∷ (552, "deviceshare.")
    ∷ (553, "pirp.")
    ∷ (554, "RTSP, Real Time Streaming Protocol.")
    ∷ (555, "dsf.")
    ∷ (556, "rfs server.")
    ∷ (557, "openvms-sysipc.")
    ∷ (558, "SDNSKMP.")
    ∷ (559, "TEEDTAP.")
    ∷ (560, "rmonitord.")
    ∷ (561, "monitor.")
    ∷ (562, "chcmd.")
    ∷ (563, "NNTP over TLS.")
    ∷ (564, "plan 9 file service.")
    ∷ (565, "whoami.")
    ∷ (566, "streettalk.")
    ∷ (567, "banyan-rpc.")
    ∷ (568, "microsoft shuttle.")
    ∷ (569, "microsoft rome.")
    ∷ (570, "demon.")
    ∷ (571, "udemon.")
    ∷ (572, "sonar.")
    ∷ (573, "banyan-vip.")
    ∷ (574, "FTP Software Agent System.")
    ∷ (575, "VEMMI, VErsatile MultiMedia Interface.")
    ∷ (576, "ipcd.")
    ∷ (577, "vnas.")
    ∷ (578, "ipdd.")
    ∷ (579, "decbsrv.")
    ∷ (580, "SNTP HEARTBEAT.")
    ∷ (581, "Bundle Discovery Protocol.")
    ∷ (582, "SCC Security.")
    ∷ (583, "Philips Video-Conferencing.")
    ∷ (584, "Key Server.")
    ∷ (586, "Password Change.")
    ∷ (587, "ESMTP, Extended Simple Mail Transfer Protocol.")
    ∷ (588, "CAL.")
    ∷ (589, "EyeLink.")
    ∷ (590, "TNS CML.")
    ∷ (591, "FileMaker Inc. - HTTP Alternate (see Port 80).")
    ∷ (592, "Eudora Set.")
    ∷ (593, "HTTP RPC Ep Map.")
    ∷ (594, "TPIP.")
    ∷ (595, "CAB Protocol.")
    ∷ (596, "SMSD.")
    ∷ (597, "PTC Name Service.")
    ∷ (598, "SCO Web Server Manager 3.")
    ∷ (599, "Aeolon Core Protocol.")
    ∷ (600, "Sun IPC server.")
    ∷ (601, "Syslog.")
    ∷ (602, "XML-RPC over BEEP.")
    ∷ (603, "IDXP, Intrusion Detection Exchange Protocol.")
    ∷ (604, "TUNNEL.")
    ∷ (605, "SOAP over BEEP.")
    ∷ (606, "Cray Unified Resource Manager.")
    ∷ (607, "nqs.")
    ∷ (608, "SIFT/UFT, Sender-Initiated/Unsolicited File Transfer.")
    ∷ (609, "npmp-trap.")
    ∷ (610, "npmp-local.")
    ∷ (611, "npmp-gui. ")
    ∷ (612, "HMMP Indication.")
    ∷ (613, "HMMP Operation.")
    ∷ (614, "SSLshell.")
    ∷ (615, "Internet Configuration Manager.")
    ∷ (616, "SCO System Administration Server.")
    ∷ (617, "SCO Desktop Administration Server.")
    ∷ (618, "DEI-ICDA.")
    ∷ (619, "Digital EVM.")
    ∷ (620, "SCO WebServer Manager.")
    ∷ (621, "ESCP.")
    ∷ (622, "Collaborator.")
    ∷ (
      623,
      "DMTF out-of-band web services management protocol. Aux Bus Shunt. ASF Remote Management and Control Protocol.",
    )
    ∷ (624, "Crypto Admin.")
    ∷ (625, "DEC DLM.")
    ∷ (626, "ASIA.")
    ∷ (627, "CKS &amp; TIVIOLI.")
    ∷ (628, "QMQP.")
    ∷ (629, "3Com AMP3.")
    ∷ (630, "RDA.")
    ∷ (631, "IPP, Internet Printing Protocol.")
    ∷ (632, "bmpp.")
    ∷ (633, "Service Status update (Sterling Software).")
    ∷ (634, "ginad.")
    ∷ (635, "RLZ DBase.")
    ∷ (636, "ldap protocol over TLS/SSL (was sldap).")
    ∷ (637, "lanserver.")
    ∷ (638, "mcns-sec.")
    ∷ (639, "MSDP, Multicast Source Discovery Protocol.")
    ∷ (640, "entrust-sps.")
    ∷ (641, "repcmd.")
    ∷ (642, "EMSD over ESRO.")
    ∷ (643, "SANity.")
    ∷ (644, "dwr.")
    ∷ (645, "PSSC.")
    ∷ (646, "LDP, Label Distribution Protocol.")
    ∷ (647, "DHCP Failover Protocol.")
    ∷ (648, "RRP, Registry Registrar Protocol.")
    ∷ (649, "Aminet.")
    ∷ (650, "OBEX.")
    ∷ (651, "IEEE MMS.")
    ∷ (652, "DTCP, Dynamic Tunnel Configuration Protocol.")
    ∷ (653, "RepCmd.")
    ∷ (654, "AODV, Ad hoc On-Demand Distance Vector.")
    ∷ (655, "TINC.")
    ∷ (656, "SPMP.")
    ∷ []
